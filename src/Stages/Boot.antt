-- ===== src/Stages/Boot.antt =====
-- `Stage`, `run_stages` and `run_stage` of src/lib.rs.
pub mod Errors
pub mod Runs
mod Tests
use cloud_init_rs.Prelude.{List}
use cloud_init_rs.Prelude.Texts.{Text, lit}
use cloud_init_rs.Result.{Exec, for_each}
use cloud_init_rs.Os.{Os}
use cloud_init_rs.Config.Types.{Serde}
use cloud_init_rs.Network.Parse.{NetworkSerde}
use cloud_init_rs.Modules.WriteFiles.{Codecs}
use cloud_init_rs.Stages.LocalStage
use cloud_init_rs.Stages.LocalStage.{Tables}
use cloud_init_rs.Stages.NetworkStage
use cloud_init_rs.Stages.ConfigStage
use cloud_init_rs.Stages.FinalStage

pub data Stage : Type 0 where
  local network config final : Stage

-- `Display`
stage_name : Stage → Text
unfolding lit
stage_name local = lit "local"
stage_name network = lit "network"
stage_name config = lit "config"
stage_name final = lit "final"

-- What other crates give the stages.
pub record Crates : Type 0 where
  pub codecs : Codecs
  pub serde : Serde
  pub network_serde : NetworkSerde
  pub tables : Tables

module _ (os : Os) (crates : Crates) where
  pub run_stage : Stage → Exec os.World (Unit {0})
  run_stage local = LocalStage.run os crates.network_serde crates.tables
  run_stage network = NetworkStage.run
  run_stage config = ConfigStage.run os crates.codecs crates.serde
  run_stage final = FinalStage.run os

  unfoldable pub run_stages : List Stage → Exec os.World (Unit {0})
  unfolding run_stage for_each
  run_stages stages = for_each run_stage stages
