-- ===== src/Datasources/Detect/Tests.antt =====
-- A machine without seed files, and without a network.
use cloud_init_rs.Prelude.{true, [], ◌∷◌}
use cloud_init_rs.Prelude.Texts.{lit}
use cloud_init_rs.Result.{ok, err}
use cloud_init_rs.Os.Memory.{Files, no_files, memory}
use cloud_init_rs.Config.Yaml.{null}
use cloud_init_rs.Config.Types.{Serde, default_config}
use cloud_init_rs.Datasources.Detect.{Libraries, detect_datasource}
use cloud_init_rs.Datasources.Detect.First.{Detected, detect_datasource-Detected}

abbrev serde : Serde
serde = record {
  from_str = λ t. ok default_config;
  to_value = λ c. ok null;
  from_value = λ v. ok default_config;
  value_eq = λ a b. true;
}

abbrev offline : Libraries Files
offline = record {
  client = record { send = λ r w. (err (lit "offline"), w) };
  fold = λ c. c ∷ [];
  serde = serde;
  yaml = λ t. ok null;
  azure = record {
    json = λ r. err (lit "bad");
    base64_decode = λ t. ok t;
    from_utf8_lossy = λ bs. bs;
  };
  openstack = record { json = λ r. err (lit "bad"); from_str = λ t. err (lit "bad") };
}

detect_datasource-Detected_example :
    Detected memory offline no_files
      (detect_datasource memory offline no_files).0
      (detect_datasource memory offline no_files).1
detect_datasource-Detected_example = detect_datasource-Detected memory offline no_files
