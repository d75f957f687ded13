-- ===== src/Datasources/Azure.antt =====
-- src/datasources/azure.rs. `json()` of a response and base64 are other crates': arguments.
use cloud_init_rs.Result.{◌>>=◌}
use cloud_init_rs.Prelude.{
  ℕ, ◌+◌, Bool, false, not, ◌&&◌, ◌||◌, Option, none, some, List, [], ◌∷◌, ◌++◌, map, leb,
  if◌then◌else◌, is_empty,
}
use cloud_init_rs.Prelude.Texts.{Text, lit, ◌==◌, trim}
use cloud_init_rs.Result.{Result, ok, err, Error, Exec, pure, raise, read_err}
use cloud_init_rs.Result.{http, datasource}
use cloud_init_rs.Os.{Os}
use cloud_init_rs.Config.Types.{Serde}
use cloud_init_rs.Userdata.Types.{UserData, no_data}
use cloud_init_rs.Datasources.Types.{InstanceMetadata, Datasource, no_panic}
use cloud_init_rs.Datasources.Http.{
  Request, get_request, Response, is_success, Client, sent, reached, text_of,
}
use cloud_init_rs.Datasources.Content.{user_data_of}
use cloud_init_rs.Datasources.Dmi.{dmi_names}

pub record AzureCompute : Type 0 where
  pub vm_id : Text
  pub name : Text
  pub location : Text
  pub vm_size : Text
  pub zone : Text
  pub computer_name : Text

pub record AzureInstanceMetadata : Type 0 where
  pub compute : AzureCompute

-- The other crates: `response.json()`, base64 and `String::from_utf8_lossy`.
pub record AzureReaders : Type 0 where
  pub json : Response → Result AzureInstanceMetadata Text
  pub base64_decode : Text → Result (List ℕ) Text
  pub from_utf8_lossy : List ℕ → Text

pub record Azure : Type 0 where
  pub base_url : Text

pub new : Azure
unfolding lit
new = record { base_url = lit "http://169.254.169.254/metadata" }

with_base_url : Text → Azure
with_base_url url = record { base_url = url }

azure_api_version : Text
unfolding lit
azure_api_version = lit "2021-02-01"

with_metadata : Text → Request
unfolding lit
with_metadata url = get_request url ((lit "Metadata", lit "true") ∷ [])

dmi_paths : List Text
unfolding lit
dmi_paths =
    lit "/sys/class/dmi/id/product_name"
    ∷ lit "/sys/class/dmi/id/bios_vendor"
    ∷ lit "/sys/class/dmi/id/sys_vendor"
    ∷ lit "/sys/class/dmi/id/chassis_asset_tag"
    ∷ []

-- `eq_ignore_ascii_case`
ascii_lower : ℕ → ℕ
ascii_lower c = if leb b'A' c && leb c b'Z' then c + 32 else c

eq_ignore_ascii_case : Text → Text → Bool
unfolding ascii_lower ◌==◌
eq_ignore_ascii_case s t = map ascii_lower s == map ascii_lower t

-- A field that is empty stands for none.
filled : Text → Option Text
filled t = if is_empty t then none else some t

or_else : Option Text → Option Text → Option Text
or_else none b = b
or_else (some a) b = some a

zone_of : AzureCompute → Option Text
unfolding filled lit
zone_of c =
    if is_empty c.location || is_empty c.zone
    then none
    else some (c.location ++ (lit "-" ++ c.zone))

pub metadata_of : AzureInstanceMetadata → InstanceMetadata
unfolding filled or_else zone_of lit
metadata_of m = record {
  instance_id = filled m.compute.vm_id;
  local_hostname = or_else (filled m.compute.computer_name) (filled m.compute.name);
  region = filled m.compute.location;
  availability_zone = zone_of m.compute;
  cloud_name = some (lit "azure");
  platform = some (lit "azure");
  instance_type = filled m.compute.vm_size;
}

module _ (os : Os) (client : Client os.World) (fold : ℕ → Text) (serde : Serde)
    (readers : AzureReaders) (s : Azure) where
  instance_url : Text
  unfolding azure_api_version lit
  instance_url = s.base_url ++ (lit "/instance?api-version=" ++ azure_api_version)

  fetch_instance_metadata : Exec os.World AzureInstanceMetadata
  unfolding with_metadata instance_url lit
  fetch_instance_metadata = do
    r ← sent client (with_metadata instance_url)
    if is_success r
        then read_err (λ w. readers.json r) http
        else raise (datasource (lit "Failed to fetch Azure metadata: " ++ r.status_line))

  check_imds : os.World → Bool × os.World
  unfolding with_metadata instance_url reached
  check_imds = reached client (with_metadata instance_url)

  check_dmi_data : os.World → Bool
  unfolding dmi_names dmi_paths eq_ignore_ascii_case trim lit
  check_dmi_data w =
      dmi_names os fold (lit "microsoft" ∷ lit "azure" ∷ lit "virtual machine" ∷ []) dmi_paths w
      || elim (os.read_to_string (lit "/sys/class/dmi/id/chassis_asset_tag") w) [
        | ok tag ↦ eq_ignore_ascii_case (trim tag) (lit "7783-7084-3265-9085-8269-3286-77")
        | err e ↦ false
      ]

  -- Whatever the DMI data says, the service is asked.
  is_available : os.World → Bool × os.World
  unfolding check_dmi_data check_imds
  is_available w = if check_dmi_data w then check_imds w else check_imds w

  get_metadata : Exec os.World InstanceMetadata
  unfolding fetch_instance_metadata metadata_of
  get_metadata = do m ← fetch_instance_metadata; pure (metadata_of m)

  -- Custom data is base64, or is taken as it is.
  decoded : Text → Text
  decoded content = elim (readers.base64_decode content) [
    | ok bytes ↦ readers.from_utf8_lossy bytes
    | err e ↦ content
  ]

  typed : Text → Result UserData Error
  unfolding decoded user_data_of
  typed content = if is_empty content then ok no_data else user_data_of serde (decoded content)

  get_userdata : Exec os.World UserData
  unfolding with_metadata azure_api_version typed lit
  get_userdata = do
    r ← sent client (
        with_metadata (
          s.base_url
          ++ (lit "/instance/compute/customData?api-version="
              ++ (azure_api_version ++ lit "&format=text"))))
    if not (is_success r) then pure no_data else (do content ← text_of r; λ w. (typed content, w))

  unfoldable pub azure_datasource : Datasource os.World
  unfolding is_available get_metadata get_userdata lit
  azure_datasource = record {
    name = lit "Azure";
    is_available = is_available;
    get_metadata = no_panic get_metadata;
    get_userdata = get_userdata;
  }
