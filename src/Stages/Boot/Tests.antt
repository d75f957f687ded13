-- ===== src/Stages/Boot/Tests.antt =====
-- A boot whose config stage fails.
use cloud_init_rs.Prelude.{◌≡◌, refl, inl, [], ◌∷◌}
use cloud_init_rs.Prelude.Texts.{lit}
use cloud_init_rs.Result.{err}
use cloud_init_rs.Result.{io}
use cloud_init_rs.Os.Memory.{no_files}
use cloud_init_rs.Stages.ConfigStage.Tests.{plain_codecs, no_yaml, unreadable, unreadable-run}
use cloud_init_rs.Stages.LocalStage.Tests.{no_network, plain_tables}
use cloud_init_rs.Stages.Boot.{network, config, final, Crates, run_stages}
use cloud_init_rs.Stages.Boot.Runs.{run_stages-Runs_iff}

abbrev crates : Crates
crates = record {
  codecs = plain_codecs;
  serde = no_yaml;
  network_serde = no_network;
  tables = plain_tables;
}

run_stages-Runs_iff_example :
    run_stages unreadable crates (network ∷ config ∷ final ∷ []) no_files
    ≡ (err (io (lit "broken")), no_files)
run_stages-Runs_iff_example =
    (run_stages-Runs_iff unreadable crates (network ∷ config ∷ final ∷ []) no_files
        (err (io (lit "broken"))) no_files).1
      (inl (io (lit "broken"), unreadable-run, refl))
