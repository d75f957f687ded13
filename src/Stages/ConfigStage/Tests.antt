-- ===== src/Stages/ConfigStage/Tests.antt =====
-- The config stage on a machine where every path is there and none can be read.
use cloud_init_rs.Prelude.{◌≡◌, refl, ◌⊎◌, true}
use cloud_init_rs.Prelude.Texts.{lit}
use cloud_init_rs.Result.{ok, err}
use cloud_init_rs.Result.{io}
use cloud_init_rs.Os.{Os}
use cloud_init_rs.Os.Memory.{no_files, memory}
use cloud_init_rs.State.Instance.{load_cached_instance_id}
use cloud_init_rs.Config.Yaml.{null}
use cloud_init_rs.Config.Types.{CloudConfig, Serde}
use cloud_init_rs.Modules.WriteFiles.{Codecs}
use cloud_init_rs.Modules.Packages.{install_packages}
use cloud_init_rs.Stages.ConfigStage.{load_cloud_config, run}
use cloud_init_rs.Stages.ConfigStage.Errors.{run-eq-err}

abbrev pub plain_codecs : Codecs
plain_codecs = record {
  base64_decode = λ t. ok t;
  from_utf8 = λ t. ok t;
  as_bytes = λ t. t;
  gunzip = λ t. ok t;
}

abbrev pub no_yaml : Serde
no_yaml = record {
  from_str = λ t. err (lit "bad");
  to_value = λ c. ok null;
  from_value = λ v. err (lit "bad");
  value_eq = λ a b. true;
}

abbrev pub unreadable : Os
unreadable = record memory { exists = λ p w. true; read_to_string = λ p w. err (lit "broken") }

pub unreadable-run :
    run unreadable plain_codecs no_yaml no_files ≡ (err (io (lit "broken")), no_files)
unfolding run load_cloud_config load_cached_instance_id
unreadable-run = refl

run-eq-err_example :
    (load_cloud_config unreadable no_yaml no_files ≡ (err (io (lit "broken")), no_files))
    ⊎ ((c : CloudConfig) × (v : unreadable.World) × ((load_cloud_config unreadable no_yaml
            no_files).0
          ≡ ok c)
        × (install_packages unreadable c.packages v ≡ (err (io (lit "broken")), no_files)))
run-eq-err_example =
    run-eq-err unreadable plain_codecs no_yaml (io (lit "broken")) no_files no_files unreadable-run
