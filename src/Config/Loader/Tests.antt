-- ===== src/Config/Loader/Tests.antt =====
-- Loading from a file system in memory, with a parser that takes the text for the host name.
use cloud_init_rs.Prelude.{◌≡◌, refl, true, none, some}
use cloud_init_rs.Prelude.Texts.{Text, lit, strip_prefix}
use cloud_init_rs.Result.{ok}
use cloud_init_rs.Os.Memory.{Files, memory}
use cloud_init_rs.State.Paths.{default_paths}
use cloud_init_rs.Config.Yaml.{null}
use cloud_init_rs.Config.Types.{CloudConfig, default_config, Serde, from_yaml}
use cloud_init_rs.Config.Loader.{load_config_file, load_full_config, load}
use cloud_init_rs.Config.Loader.Equivalence.{load_full_config-eq-load}

abbrev host : Text → CloudConfig
host t = record default_config { hostname = some t }

abbrev host_only : Serde
host_only = record {
  from_str = λ t. ok (host t);
  to_value = λ c. ok null;
  from_value = λ v. ok default_config;
  value_eq = λ a b. true;
}

abbrev all_box : Files
all_box p = some (lit "box")

load_full_config-eq-load_example :
    load_full_config memory host_only default_paths (some (lit "#cloud-config")) none all_box
    ≡ load memory host_only
        (record {
          paths = default_paths;
          include_system = true;
          include_dropins = true;
          userdata = some (lit "#cloud-config");
          vendordata = none;
        })
        all_box
unfolding load_config_file from_yaml strip_prefix lit
load_full_config-eq-load_example =
    load_full_config-eq-load memory host_only default_paths (some (lit "#cloud-config")) none
      (host (lit "box")) all_box refl
