-- ===== src/Datasources/Gce.antt =====
-- src/datasources/gce.rs
use cloud_init_rs.Result.{◌>>=◌}
use cloud_init_rs.Prelude.{
  ℕ, Bool, Option, none, some, List, [], ◌∷◌, ◌++◌, if◌then◌else◌, is_empty,
}
use cloud_init_rs.Prelude.Texts.{Text, lit}
use cloud_init_rs.Result.{Result, ok, err, Error, Exec, pure, raise}
use cloud_init_rs.Result.{attempt}
use cloud_init_rs.Os.{Os}
use cloud_init_rs.Config.Types.{Serde}
use cloud_init_rs.Userdata.Types.{UserData, no_data}
use cloud_init_rs.Datasources.Types.{InstanceMetadata, default_metadata, Datasource, no_panic}
use cloud_init_rs.Datasources.Http.{
  Request, get_request, is_success, Client, sent, reached, text_of, not_fetched,
}
use cloud_init_rs.Datasources.Parts.{before_last, after_last}
use cloud_init_rs.Datasources.Content.{user_data_of}
use cloud_init_rs.Datasources.Dmi.{dmi_names}

pub record Gce : Type 0 where
  pub base_url : Text

pub new : Gce
unfolding lit
new = record { base_url = lit "http://metadata.google.internal/computeMetadata/v1" }

with_base_url : Text → Gce
with_base_url url = record { base_url = url }

flavored : Text → Request
unfolding lit
flavored url = get_request url ((lit "Metadata-Flavor", lit "Google") ∷ [])

dmi_paths : List Text
unfolding lit
dmi_paths =
    lit "/sys/class/dmi/id/product_name"
    ∷ lit "/sys/class/dmi/id/bios_vendor"
    ∷ lit "/sys/class/dmi/id/sys_vendor"
    ∷ []

-- What the answers to the four requests make of the metadata.
set_id : Result Text Error → InstanceMetadata → InstanceMetadata
set_id (err e) m = m
set_id (ok id) m = record m { instance_id = some id }

set_hostname : Result Text Error → InstanceMetadata → InstanceMetadata
set_hostname (err e) m = m
set_hostname (ok hostname) m = record m { local_hostname = some hostname }

-- The zone is the last part of a path, and the region what comes before the zone's last dash.
pub set_region : Option Text → InstanceMetadata → InstanceMetadata
set_region none m = m
set_region (some region) m = record m { region = some region }

pub set_zone : Result Text Error → InstanceMetadata → InstanceMetadata
unfolding set_region after_last before_last
set_zone (err e) m = m
set_zone (ok path) m =
    let zone = after_last b'/' path in
    set_region (before_last b'-' zone) (record m { availability_zone = some zone })

set_type : Result Text Error → InstanceMetadata → InstanceMetadata
unfolding after_last
set_type (err e) m = m
set_type (ok path) m = record m { instance_type = some (after_last b'/' path) }

module _ (os : Os) (client : Client os.World) (fold : ℕ → Text) (serde : Serde) (s : Gce) where
  fetch_metadata : Text → Exec os.World Text
  unfolding flavored not_fetched lit
  fetch_metadata path = do
    r ← sent client (flavored (s.base_url ++ (lit "/" ++ path)))
    if is_success r then text_of r else raise (not_fetched path r)

  check_metadata_server : os.World → Bool × os.World
  unfolding flavored reached lit
  check_metadata_server = reached client (flavored (s.base_url ++ lit "/"))

  check_dmi_data : os.World → Bool
  unfolding dmi_names dmi_paths lit
  check_dmi_data = dmi_names os fold (lit "google" ∷ []) dmi_paths

  -- Whatever the DMI data says, the server is asked.
  is_available : os.World → Bool × os.World
  unfolding check_dmi_data check_metadata_server
  is_available w = if check_dmi_data w then check_metadata_server w else check_metadata_server w

  get_metadata : Exec os.World InstanceMetadata
  unfolding fetch_metadata set_id set_hostname set_zone set_type lit
  get_metadata = do
    id ← attempt (fetch_metadata (lit "instance/id"))
    hostname ← attempt (fetch_metadata (lit "instance/hostname"))
    zone ← attempt (fetch_metadata (lit "instance/zone"))
    machine_type ← attempt (fetch_metadata (lit "instance/machine-type"))
    pure (
        set_type machine_type (
          set_zone zone (
            set_hostname hostname (
              set_id id (record default_metadata {
                cloud_name = some (lit "gce");
                platform = some (lit "gce");
              })))))

  -- A text that was fetched and is not empty.
  content_of : Result Text Error → Option Text
  content_of (err e) = none
  content_of (ok t) = if is_empty t then none else some t

  typed : Option Text → Result UserData Error
  unfolding user_data_of
  typed none = ok no_data
  typed (some content) = user_data_of serde content

  startup_script : Exec os.World (Option Text)
  unfolding fetch_metadata content_of lit
  startup_script = do
    answer ← attempt (fetch_metadata (lit "instance/attributes/startup-script"))
    pure (content_of answer)

  get_userdata : Exec os.World UserData
  unfolding fetch_metadata content_of startup_script typed lit
  get_userdata = do
    answer ← attempt (fetch_metadata (lit "instance/attributes/user-data"))
    content ← elim (content_of answer) [ some t ↦ pure (some t) | none ↦ startup_script ]
    λ w. (typed content, w)

  unfoldable pub gce_datasource : Datasource os.World
  unfolding is_available get_metadata get_userdata lit
  gce_datasource = record {
    name = lit "GCE";
    is_available = is_available;
    get_metadata = no_panic get_metadata;
    get_userdata = get_userdata;
  }
