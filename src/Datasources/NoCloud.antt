-- ===== src/Datasources/NoCloud.antt =====
-- src/datasources/nocloud.rs
use cloud_init_rs.Result.{◌>>=◌}
use cloud_init_rs.Prelude.{
  Bool, Option, none, some, List, [], ◌∷◌, if◌then◌else◌, is_empty, is_some,
}
use cloud_init_rs.Prelude.Texts.{Text, lit, ◌==◌, trim}
use cloud_init_rs.Result.{Result, ok, err, Error, Exec, pure, query}
use cloud_init_rs.Result.{datasource}
use cloud_init_rs.Os.{Os}
use cloud_init_rs.State.Paths.{path_join}
use cloud_init_rs.Config.Yaml.{Value, mapping, string, tagged, Fields, field, end}
use cloud_init_rs.Config.Types.{Serde}
use cloud_init_rs.Userdata.Types.{UserData, no_data}
use cloud_init_rs.Datasources.Types.{InstanceMetadata, default_metadata, Datasource, no_panic}
use cloud_init_rs.Datasources.Content.{user_data_of}

pub record NoCloud : Type 0 where
  pub seed_dirs : List Text

-- `NoCloud::new`
new : NoCloud
unfolding lit
new = record {
  seed_dirs = lit "/var/lib/cloud/seed/nocloud" ∷ lit "/var/lib/cloud/seed/nocloud-net" ∷ [];
}

with_seed_dirs : List Text → NoCloud
with_seed_dirs dirs = record { seed_dirs = dirs }

possible_mounts : List Text
unfolding lit
possible_mounts = lit "/mnt/cidata" ∷ lit "/media/cidata" ∷ lit "/run/cloud-init/cidata" ∷ []

-- `serde_yaml::Value::get` of a name, and `as_str`
field_named : Text → Fields → Option Value
unfolding ◌==◌
field_named k end = none
field_named k (field (string j) v m) = if j == k then some v else field_named k m
field_named k (field j v m) = field_named k m

get_named : Text → Value → Option Value
unfolding field_named
get_named k (mapping m) = field_named k m
get_named k (tagged t v) = get_named k v
get_named k v = none

as_str : Option Value → Option Text
as_str (some (string t)) = some t
as_str (some (tagged t v)) = as_str (some v)
as_str v = none

-- The values of the file `meta-data` that are strings replace what is there.
set_id : Option Text → InstanceMetadata → InstanceMetadata
set_id none m = m
set_id (some id) m = record m { instance_id = some id }

set_hostname : Option Text → InstanceMetadata → InstanceMetadata
set_hostname none m = m
set_hostname (some hostname) m = record m { local_hostname = some hostname }

set_values : Value → InstanceMetadata → InstanceMetadata
unfolding get_named as_str set_id set_hostname lit
set_values v m =
    set_hostname (as_str (get_named (lit "local-hostname") v))
      (set_id (as_str (get_named (lit "instance-id") v)) m)

module _ (os : Os) (yaml : Text → Result Value Text) (serde : Serde) where
  first_dir : (Text → os.World → Bool) → List Text → os.World → Option Text
  unfolding path_join lit
  first_dir test [] w = none
  first_dir test (d ∷ ds) w =
      if test (path_join d (lit "meta-data")) w then some d else first_dir test ds w

  find_cidata_mount : os.World → Option Text
  unfolding first_dir possible_mounts
  find_cidata_mount = first_dir os.is_file possible_mounts

  find_seed_dir : NoCloud → os.World → Option Text
  unfolding first_dir find_cidata_mount
  find_seed_dir s w = elim (first_dir os.exists s.seed_dirs w) [
    | some d ↦ some d
    | none ↦ find_cidata_mount w
  ]

  read_file : Text → Text → os.World → Option Text
  unfolding path_join
  read_file dir name w = elim (os.read_to_string (path_join dir name) w) [
    | ok t ↦ some t
    | err e ↦ none
  ]

  is_available : NoCloud → os.World → Bool × os.World
  unfolding find_seed_dir
  is_available s w = (is_some (find_seed_dir s w), w)

  -- `find_seed_dir().await.ok_or_else(…)?`
  seed_dir : NoCloud → Exec os.World Text
  unfolding find_seed_dir lit
  seed_dir s w = elim (find_seed_dir s w) [
    | some d ↦ (ok d, w)
    | none ↦ (err (datasource (lit "NoCloud seed directory not found")), w)
  ]

  -- A file that cannot be read, or is no YAML, changes nothing.
  parsed_into : Option Text → InstanceMetadata → InstanceMetadata
  unfolding set_values
  parsed_into none m = m
  parsed_into (some t) m = elim (yaml t) [ ok v ↦ set_values v m | err e ↦ m ]

  get_metadata : NoCloud → Exec os.World InstanceMetadata
  unfolding seed_dir read_file parsed_into lit
  get_metadata s = do
    dir ← seed_dir s
    content ← query (read_file dir (lit "meta-data"))
    pure (parsed_into content (record default_metadata { cloud_name = some (lit "nocloud") }))

  typed : Option Text → Result UserData Error
  unfolding user_data_of trim
  typed none = ok no_data
  typed (some c) = if is_empty (trim c) then ok no_data else user_data_of serde c

  get_userdata : NoCloud → Exec os.World UserData
  unfolding seed_dir read_file typed lit
  get_userdata s = do
    dir ← seed_dir s
    content ← query (read_file dir (lit "user-data"))
    λ w. (typed content, w)

  unfoldable pub nocloud_datasource : Datasource os.World
  unfolding is_available get_metadata get_userdata new lit
  nocloud_datasource = record {
    name = lit "NoCloud";
    is_available = is_available new;
    get_metadata = no_panic (get_metadata new);
    get_userdata = get_userdata new;
  }
