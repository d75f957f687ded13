-- ===== src/Datasources/Ec2.antt =====
-- src/datasources/ec2.rs. A region is cut off the zone by bytes, which may panic.
pub mod Regions
mod Tests
use cloud_init_rs.Result.{◌>>=◌}
use cloud_init_rs.Prelude.{
  ℕ, ◌-◌, Bool, true, false, not, ◌||◌, Option, none, some, List, [], ◌∷◌, ◌++◌, ltb, eqb,
  if◌then◌else◌, is_empty,
}
use cloud_init_rs.Prelude.Texts.{Text, lit, decimal}
use cloud_init_rs.Result.{Result, ok, err, Error, Exec, pure, raise}
use cloud_init_rs.Result.{attempt}
use cloud_init_rs.Os.{Os}
use cloud_init_rs.Config.Types.{Serde}
use cloud_init_rs.Userdata.Slices.{byte_length, slice_to}
use cloud_init_rs.Userdata.Types.{UserData, no_data}
use cloud_init_rs.Datasources.Types.{
  InstanceMetadata, default_metadata, Datasource, Panicking, asked,
}
use cloud_init_rs.Datasources.Http.{
  put, Request, get_request, Response, is_success, Client, sent, reached, text_of, not_fetched,
}
use cloud_init_rs.Datasources.Content.{user_data_of}
use cloud_init_rs.Datasources.Dmi.{dmi_names}

pub record Ec2 : Type 0 where
  pub base_url : Text

pub new : Ec2
unfolding lit
new = record { base_url = lit "http://169.254.169.254" }

with_base_url : Text → Ec2
with_base_url url = record { base_url = url }

token_ttl_seconds : ℕ
token_ttl_seconds = 300

-- The token of a response that is one.
token_of : Result Response Text → Option Text
token_of (err e) = none
token_of (ok r) = if is_success r then elim r.text [ ok t ↦ some t | err e ↦ none ] else none

with_token : Text → Text → Request
unfolding lit
with_token url token = get_request url ((lit "X-aws-ec2-metadata-token", token) ∷ [])

dmi_paths : List Text
unfolding lit
dmi_paths =
    lit "/sys/class/dmi/id/product_name"
    ∷ lit "/sys/class/dmi/id/bios_vendor"
    ∷ lit "/sys/class/dmi/id/sys_vendor"
    ∷ []

-- What the answers to the three requests make of the metadata.
pub set_id : Result Text Error → InstanceMetadata → InstanceMetadata
set_id (err e) m = m
set_id (ok id) m = record m { instance_id = some id }

pub set_hostname : Result Text Error → InstanceMetadata → InstanceMetadata
set_hostname (err e) m = m
set_hostname (ok hostname) m = record m { local_hostname = some hostname }

-- `metadata.region = Some(az[..az.len() - 1].to_string())`
pub set_region : Option Text → InstanceMetadata → Option InstanceMetadata
set_region none m = none
set_region (some region) m = some (record m { region = some region })

pub set_zone : Result Text Error → InstanceMetadata → Option InstanceMetadata
unfolding set_region byte_length slice_to
set_zone (err e) m = some m
set_zone (ok az) m =
    let zoned = record m { availability_zone = some az } in
    if ltb 1 (byte_length az)
    then set_region (slice_to (byte_length az - 1) az) zoned
    else some zoned

pub record Answers : Type 0 where
  pub id : Result Text Error
  pub hostname : Result Text Error
  pub zone : Result Text Error

pub metadata_of : Answers → Option InstanceMetadata
unfolding set_id set_hostname set_zone lit
metadata_of a = set_zone a.zone (
    set_hostname a.hostname (
      set_id a.id
        (record default_metadata { cloud_name = some (lit "aws"); platform = some (lit "ec2") })))

-- The result, and no result after a panic.
pub finished : Option InstanceMetadata → Option (Result InstanceMetadata Error)
finished none = none
finished (some m) = some (ok m)

pub concluded : Result Answers Error → Option (Result InstanceMetadata Error)
unfolding metadata_of finished
concluded (ok a) = finished (metadata_of a)
concluded (err e) = some (err e)

module _ (os : Os) (client : Client os.World) (fold : ℕ → Text) (serde : Serde) (s : Ec2) where
  pub get_imdsv2_token : os.World → Option Text × os.World
  unfolding token_of token_ttl_seconds decimal lit
  get_imdsv2_token w =
      let (answer, w') =
        client.send
          (record {
            method = put;
            url = s.base_url ++ lit "/latest/api/token";
            headers = (lit "X-aws-ec2-metadata-token-ttl-seconds", decimal token_ttl_seconds) ∷ [];
          })
          w in
      (token_of answer, w')

  -- The request with a token, if there is one: an answer that is no success does not count.
  pub fetch_v2 : Text → Option Text → Exec os.World (Option Text)
  unfolding with_token
  fetch_v2 url none = pure none
  fetch_v2 url (some token) = do
    r ← sent client (with_token url token)
    if is_success r then (do t ← text_of r; pure (some t)) else pure none

  pub fetch_v1 : Text → Text → Exec os.World Text
  unfolding not_fetched
  fetch_v1 path url = do
    r ← sent client (get_request url [])
    if is_success r then text_of r else raise (not_fetched path r)

  pub fetch_metadata_path : Text → Exec os.World Text
  unfolding get_imdsv2_token fetch_v2 fetch_v1 lit
  fetch_metadata_path path = do
    let url = s.base_url ++ (lit "/latest/meta-data/" ++ path)
    token ← asked get_imdsv2_token
    found ← fetch_v2 url token
    elim found [ some t ↦ pure t | none ↦ fetch_v1 path url ]

  reached_with : Text → Option Text → os.World → Bool × os.World
  unfolding with_token reached
  reached_with url none w = (false, w)
  reached_with url (some token) w = reached client (with_token url token) w

  check_imds : os.World → Bool × os.World
  unfolding get_imdsv2_token reached_with reached lit
  check_imds w =
      let url = s.base_url ++ lit "/latest/meta-data/" in
      let (token, w1) = get_imdsv2_token w in
      let (answered, w2) = reached_with url token w1 in
      if answered then (true, w2) else reached client (get_request url []) w2

  check_dmi_data : os.World → Bool
  unfolding dmi_names dmi_paths lit
  check_dmi_data w =
      dmi_names os fold (lit "amazon" ∷ lit "ec2" ∷ []) dmi_paths w
      || os.exists (lit "/sys/hypervisor/uuid") w

  is_available : os.World → Bool × os.World
  unfolding check_dmi_data check_imds
  is_available w = if check_dmi_data w then check_imds w else (false, w)

  -- The three requests: a failure is an answer too.
  pub ask : Exec os.World Answers
  unfolding fetch_metadata_path lit
  ask = do
    id ← attempt (fetch_metadata_path (lit "instance-id"))
    hostname ← attempt (fetch_metadata_path (lit "local-hostname"))
    zone ← attempt (fetch_metadata_path (lit "placement/availability-zone"))
    pure (record { id = id; hostname = hostname; zone = zone })

  pub get_metadata : Panicking os.World InstanceMetadata
  unfolding concluded
  get_metadata w = let (answers, w') = ask w in (concluded answers, w')

  request_of : Text → Option Text → Request
  unfolding with_token
  request_of url none = get_request url []
  request_of url (some token) = with_token url token

  typed : Text → Result UserData Error
  unfolding user_data_of
  typed content = if is_empty content then ok no_data else user_data_of serde content

  get_userdata : Exec os.World UserData
  unfolding get_imdsv2_token request_of typed lit
  get_userdata = do
    token ← asked get_imdsv2_token
    r ← sent client (request_of (s.base_url ++ lit "/latest/user-data") token)
    if eqb r.status 404 || not (is_success r)
        then pure no_data
        else (do content ← text_of r; λ w. (typed content, w))

  unfoldable pub ec2_datasource : Datasource os.World
  unfolding is_available get_metadata get_userdata lit
  ec2_datasource = record {
    name = lit "EC2";
    is_available = is_available;
    get_metadata = get_metadata;
    get_userdata = get_userdata;
  }
