-- ===== src/Config/Loader/Equivalence.antt =====
-- The two ways of loading: the function, and the builder with nothing skipped.
use cloud_init_rs.Prelude.Texts.{Text}
use cloud_init_rs.Config.Merge.{merge_rest, merge_all_configs}
use cloud_init_rs.Config.Loader.{load_merged_config, data_configs}
use cloud_init_rs.Result.Steps.{bind_assoc, bind_cong}
use cloud_init_rs.Prelude.{◌≡◌, refl, ◌∙◌, true, Option, some, ◌∷◌, ◌++◌}
use cloud_init_rs.Result.{ok, pure}
use cloud_init_rs.Os.{Os}
use cloud_init_rs.State.Paths.{CloudPaths, main_config, config_d}
use cloud_init_rs.Config.Types.{CloudConfig, Serde}
use cloud_init_rs.Config.Merge.Configs.{merge_rest-append}
use cloud_init_rs.Config.Loader.{load_config_file, load_full_config, load, load_dropin_configs}

-- When the main config file loads, load_full_config and the loader built with the same paths and
-- data give the same result, errors included.
pub load_full_config-eq-load :
    (os : Os) (serde : Serde) (paths : CloudPaths) (user vendor : Option Text) (c : CloudConfig)
    (w : os.World)
    → load_config_file os serde (main_config paths) w ≡ (ok (some c), w)
    → load_full_config os serde paths user vendor w
      ≡ load os serde
          (record {
            paths = paths;
            include_system = true;
            include_dropins = true;
            userdata = user;
            vendordata = vendor;
          })
          w
unfolding load_full_config load load_merged_config merge_all_configs merge_rest
load_full_config-eq-load os serde paths user vendor c w h = rw h (
    bind_assoc (load_dropin_configs os serde (config_d paths))
      (λ ds. pure (merge_all_configs serde (c ∷ ds)))
      (λ system. pure (merge_all_configs serde (system ∷ data_configs os serde vendor user))) w
    ∙ bind_cong (load_dropin_configs os serde (config_d paths))
        (λ ds. pure (merge_rest serde (merge_rest serde c ds) (data_configs os serde vendor user)))
        (λ ds. pure (merge_rest serde c (ds ++ data_configs os serde vendor user))) w
        (λ ds t. rw (merge_rest-append serde c ds (data_configs os serde vendor user)) refl))
