-- ===== src/Datasources/OpenStack.antt =====
-- src/datasources/openstack.rs. The readings of JSON are another crate's: arguments.
use cloud_init_rs.Result.{◌>>=◌}
use cloud_init_rs.Prelude.{
  ℕ, Bool, true, not, ◌||◌, Option, none, some, List, [], ◌∷◌, ◌++◌, eqb, if◌then◌else◌, is_empty,
  is_some,
}
use cloud_init_rs.Prelude.Texts.{Text, lit}
use cloud_init_rs.Result.{Result, ok, err, Error, Exec, pure, raise, query, read_err}
use cloud_init_rs.Result.{http, datasource}
use cloud_init_rs.Os.{Os}
use cloud_init_rs.State.Paths.{path_join}
use cloud_init_rs.Config.Types.{Serde}
use cloud_init_rs.Userdata.Types.{UserData, no_data}
use cloud_init_rs.Datasources.Types.{InstanceMetadata, Datasource, no_panic}
use cloud_init_rs.Datasources.Http.{
  get_request, Response, is_success, Client, sent, reached, text_of,
}
use cloud_init_rs.Datasources.Parts.{before_last}
use cloud_init_rs.Datasources.Content.{user_data_of}
use cloud_init_rs.Datasources.Dmi.{dmi_names}

-- `OpenStackMetadata`, less `project_id` and `meta`, which nothing reads.
pub record OpenStackMetadata : Type 0 where
  pub uuid : Text
  pub name : Text
  pub hostname : Text
  pub availability_zone : Text

-- `response.json()` and `serde_json::from_str`
pub record OpenStackReaders : Type 0 where
  pub json : Response → Result OpenStackMetadata Text
  pub from_str : Text → Result OpenStackMetadata Text

pub record OpenStack : Type 0 where
  pub metadata_url : Text

pub new : OpenStack
unfolding lit
new = record { metadata_url = lit "http://169.254.169.254/openstack" }

with_base_url : Text → OpenStack
with_base_url url = record { metadata_url = url }

config_drive_paths : List Text
unfolding lit
config_drive_paths =
    lit "/mnt/config"
    ∷ lit "/config-2"
    ∷ lit "/media/configdrive"
    ∷ lit "/run/cloud-init/config-drive"
    ∷ []

dmi_paths : List Text
unfolding lit
dmi_paths =
    lit "/sys/class/dmi/id/product_name"
    ∷ lit "/sys/class/dmi/id/sys_vendor"
    ∷ lit "/sys/class/dmi/id/chassis_vendor"
    ∷ []

-- A field that is empty stands for none.
filled : Text → Option Text
filled t = if is_empty t then none else some t

or_else : Option Text → Option Text → Option Text
or_else none b = b
or_else (some a) b = some a

-- The region is what comes before the last dash of the zone.
region_of : Option Text → Option Text
unfolding before_last
region_of none = none
region_of (some zone) = before_last b'-' zone

pub metadata_of : OpenStackMetadata → InstanceMetadata
unfolding filled or_else region_of lit
metadata_of m = record {
  instance_id = filled m.uuid;
  local_hostname = or_else (filled m.hostname) (filled m.name);
  region = region_of (filled m.availability_zone);
  availability_zone = filled m.availability_zone;
  cloud_name = some (lit "openstack");
  platform = some (lit "openstack");
  instance_type = none;
}

module _ (os : Os) (client : Client os.World) (fold : ℕ → Text) (serde : Serde)
    (readers : OpenStackReaders) (s : OpenStack) where
  first_drive : List Text → os.World → Option Text
  unfolding path_join lit
  first_drive [] w = none
  first_drive (p ∷ ps) w =
      if os.exists (path_join p (lit "openstack/latest/meta_data.json")) w
      then some p
      else first_drive ps w

  find_config_drive : os.World → Option Text
  unfolding first_drive config_drive_paths
  find_config_drive = first_drive config_drive_paths

  metadata_address : Text
  unfolding lit
  metadata_address = s.metadata_url ++ lit "/latest/meta_data.json"

  check_metadata_service : os.World → Bool × os.World
  unfolding metadata_address reached
  check_metadata_service = reached client (get_request metadata_address [])

  fetch_metadata_http : Exec os.World OpenStackMetadata
  unfolding metadata_address lit
  fetch_metadata_http = do
    r ← sent client (get_request metadata_address [])
    if is_success r
        then read_err (λ w. readers.json r) http
        else raise (datasource (lit "Failed to fetch OpenStack metadata: " ++ r.status_line))

  fetch_metadata_config_drive : Text → Exec os.World OpenStackMetadata
  unfolding path_join lit
  fetch_metadata_config_drive drive = do
    content ←
        read_err (os.read_to_string (path_join drive (lit "openstack/latest/meta_data.json")))
          (λ e. datasource (lit "Failed to read config-drive metadata: " ++ e))
    read_err (λ w. readers.from_str content)
        (λ e. datasource (lit "Failed to parse config-drive metadata: " ++ e))

  -- No content, or content that is not empty.
  content_of : Result Text Text → Option Text
  content_of (err e) = none
  content_of (ok t) = if is_empty t then none else some t

  fetch_userdata_http : Exec os.World (Option Text)
  unfolding content_of lit
  fetch_userdata_http = do
    r ← sent client (get_request (s.metadata_url ++ lit "/latest/user_data") [])
    if eqb r.status 404 || not (is_success r)
        then pure none
        else (do content ← text_of r; pure (content_of (ok content)))

  fetch_userdata_config_drive : Text → Exec os.World (Option Text)
  unfolding content_of path_join lit
  fetch_userdata_config_drive drive = do
    content ← query (os.read_to_string (path_join drive (lit "openstack/latest/user_data")))
    pure (content_of content)

  check_dmi_data : os.World → Bool
  unfolding dmi_names dmi_paths lit
  check_dmi_data =
      dmi_names os fold (lit "openstack" ∷ lit "bochs" ∷ lit "qemu" ∷ lit "kvm" ∷ lit "rhev" ∷ [])
        dmi_paths

  is_available : os.World → Bool × os.World
  unfolding find_config_drive check_dmi_data check_metadata_service
  is_available w =
      if is_some (find_config_drive w)
      then (true, w)
      else if check_dmi_data w
      then check_metadata_service w
      else check_metadata_service w

  -- The config drive comes before the service.
  fetch_metadata : Option Text → Exec os.World OpenStackMetadata
  unfolding fetch_metadata_config_drive fetch_metadata_http
  fetch_metadata none = fetch_metadata_http
  fetch_metadata (some drive) = fetch_metadata_config_drive drive

  get_metadata : Exec os.World InstanceMetadata
  unfolding find_config_drive fetch_metadata metadata_of
  get_metadata = do drive ← query find_config_drive; m ← fetch_metadata drive; pure (metadata_of m)

  fetch_userdata : Option Text → Exec os.World (Option Text)
  unfolding fetch_userdata_config_drive fetch_userdata_http
  fetch_userdata none = fetch_userdata_http
  fetch_userdata (some drive) = fetch_userdata_config_drive drive

  typed : Option Text → Result UserData Error
  unfolding user_data_of
  typed none = ok no_data
  typed (some content) = if is_empty content then ok no_data else user_data_of serde content

  get_userdata : Exec os.World UserData
  unfolding find_config_drive fetch_userdata typed
  get_userdata = do
    drive ← query find_config_drive
    content ← fetch_userdata drive
    λ w. (typed content, w)

  unfoldable pub openstack_datasource : Datasource os.World
  unfolding is_available get_metadata get_userdata lit
  openstack_datasource = record {
    name = lit "OpenStack";
    is_available = is_available;
    get_metadata = no_panic get_metadata;
    get_userdata = get_userdata;
  }
