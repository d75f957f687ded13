-- ===== src/Config/Loader.antt =====
-- src/config/loader.rs
pub mod Equivalence
mod Tests
use cloud_init_rs.Result.{◌>>=◌}
use cloud_init_rs.Config.Merge.{merge_rest}
use cloud_init_rs.Prelude.{
  Bool, true, false, not, ◌&&◌, ◌||◌, Option, none, some, List, [], ◌∷◌, ◌++◌, ltb, eqb,
  if◌then◌else◌, keep,
}
use cloud_init_rs.Prelude.Texts.{Text, lit, ◌==◌}
use cloud_init_rs.Result.{Result, ok, err, Exec, pure, query, read_err}
use cloud_init_rs.Result.{io}
use cloud_init_rs.Os.{Os}
use cloud_init_rs.State.Paths.{CloudPaths, default_paths, main_config, config_d, path_join}
use cloud_init_rs.Config.Types.{CloudConfig, Serde, from_yaml, is_cloud_config}
use cloud_init_rs.Config.Merge.{merge_all_configs}

-- `path.extension().is_some_and(|e| e == "cfg")`, of a file's name
ends_with : Text → Text → Bool
unfolding ◌==◌
ends_with [] suffix = suffix == []
ends_with (c ∷ cs) suffix = let rest = ends_with cs suffix in (c ∷ cs) == suffix || rest

is_cfg : Text → Bool
unfolding ends_with ◌==◌ lit
is_cfg file = ends_with file (lit ".cfg") && not (file == lit ".cfg")

-- `entries.sort()`: the order of two names in one directory
name_le : Text → Text → Bool
name_le [] b = true
name_le (x ∷ a) [] = false
name_le (x ∷ a) (y ∷ b) = let rest = name_le a b in if eqb x y then rest else ltb x y

insert_name : Text → List Text → List Text
unfolding name_le
insert_name a [] = a ∷ []
insert_name a (b ∷ bs) = let rest = insert_name a bs in if name_le a b then a ∷ b ∷ bs else b ∷ rest

sort_names : List Text → List Text
unfolding insert_name
sort_names [] = []
sort_names (a ∷ rest) = insert_name a (sort_names rest)

-- A parse failure is logged and dropped.
abbrev parsed : Result CloudConfig Text → Option CloudConfig
parsed (ok c) = some c
parsed (err e) = none

abbrev pushed : Option CloudConfig → List CloudConfig → List CloudConfig
pushed none rest = rest
pushed (some c) rest = c ∷ rest

module _ (os : Os) (serde : Serde) where
  pub load_config_file : Text → Exec os.World (Option CloudConfig)
  unfolding from_yaml
  load_config_file path = do
    there ← query (os.exists path)
    if not there then pure none else do
      content ← read_err (os.read_to_string path) io
      pure (parsed (from_yaml serde content))

  pub load_files : Text → List Text → Exec os.World (List CloudConfig)
  unfolding load_config_file path_join
  load_files dir [] = pure []
  load_files dir (file ∷ files) = do
    config ← load_config_file (path_join dir file)
    rest ← load_files dir files
    pure (pushed config rest)

  pub load_dropin_configs : Text → Exec os.World (List CloudConfig)
  unfolding load_files sort_names is_cfg
  load_dropin_configs dir = do
    there ← query (os.exists dir)
    if not there then pure [] else do
      files ← read_err (os.read_dir dir) io
      load_files dir (sort_names (keep is_cfg files))

  pub load_merged_config : CloudPaths → Exec os.World CloudConfig
  unfolding load_config_file load_dropin_configs main_config config_d merge_all_configs merge_rest
  load_merged_config paths = do
    main ← load_config_file (main_config paths)
    dropins ← load_dropin_configs (config_d paths)
    pure (merge_all_configs serde (pushed main dropins))

  -- `if let Some(data) = data { if is_cloud_config(data) { match from_yaml(data) { … } } }`
  data_config : Option Text → Option CloudConfig
  unfolding is_cloud_config from_yaml
  data_config none = none
  data_config (some d) = if is_cloud_config d then parsed (from_yaml serde d) else none

  -- The configs that vendor-data and user-data add, in the order of the merge.
  pub data_configs : Option Text → Option Text → List CloudConfig
  unfolding data_config
  data_configs vendordata userdata =
      pushed (data_config vendordata) (pushed (data_config userdata) [])

  pub load_full_config : CloudPaths → Option Text → Option Text → Exec os.World CloudConfig
  unfolding load_merged_config data_configs merge_all_configs merge_rest
  load_full_config paths userdata vendordata = do
    system ← load_merged_config paths
    pure (merge_all_configs serde (system ∷ data_configs vendordata userdata))

pub record ConfigLoader : Type 0 where
  pub paths : CloudPaths
  pub include_system : Bool
  pub include_dropins : Bool
  pub userdata : Option Text
  pub vendordata : Option Text

-- `ConfigLoader::new`
abbrev new : ConfigLoader
new = record {
  paths = default_paths;
  include_system = true;
  include_dropins = true;
  userdata = none;
  vendordata = none;
}

abbrev with_paths : ConfigLoader → CloudPaths → ConfigLoader
with_paths self p = record self { paths = p }

abbrev skip_system : ConfigLoader → ConfigLoader
skip_system self = record self { include_system = false }

abbrev skip_dropins : ConfigLoader → ConfigLoader
skip_dropins self = record self { include_dropins = false }

abbrev with_userdata : ConfigLoader → Text → ConfigLoader
with_userdata self d = record self { userdata = some d }

abbrev with_vendordata : ConfigLoader → Text → ConfigLoader
with_vendordata self d = record self { vendordata = some d }

module _ (os : Os) (serde : Serde) where
  pub load : ConfigLoader → Exec os.World CloudConfig
  unfolding load_config_file load_dropin_configs main_config config_d merge_all_configs merge_rest
      data_configs
  load self = do
    main ←
        if self.include_system
        then load_config_file os serde (main_config self.paths)
        else pure none
    dropins ←
        if self.include_dropins then load_dropin_configs os serde (config_d self.paths) else pure []
    pure (
        merge_all_configs serde
          (pushed main (dropins ++ data_configs os serde self.vendordata self.userdata)))
