-- ===== src/CommandLine/Tests.antt =====
-- The commands on a machine in memory, with parsers that refuse everything.
use cloud_init_rs.Prelude.{◌≡◌, none, some}
use cloud_init_rs.Os.Memory.{no_files, memory}
use cloud_init_rs.Stages.Boot.{Crates}
use cloud_init_rs.Stages.ConfigStage.Tests.{plain_codecs, no_yaml}
use cloud_init_rs.Stages.LocalStage.Tests.{no_network, plain_tables}
use cloud_init_rs.CommandLine.{init, main}
use cloud_init_rs.CommandLine.Init.{cli_of, one_by_one, main-eq-one_by_one}

abbrev crates : Crates
crates = record {
  codecs = plain_codecs;
  serde = no_yaml;
  network_serde = no_network;
  tables = plain_tables;
}

main-eq-one_by_one_example :
    (main memory crates (cli_of 1 (some init)) no_files ≡ one_by_one memory crates 1 no_files)
    × (main memory crates (cli_of 1 none) no_files ≡ one_by_one memory crates 1 no_files)
main-eq-one_by_one_example = main-eq-one_by_one memory crates 1 no_files
