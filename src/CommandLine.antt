-- ===== src/CommandLine.antt =====
-- src/main.rs. The arguments are parsed by another crate, `clap`; logging is left out, and the
-- commands `query`, `clean` and `status` only print that they are not there yet.
pub mod Init
mod Tests
use cloud_init_rs.Prelude.{ℕ, Bool, Option, none, some, List, [], ◌∷◌, eqb, if◌then◌else◌}
use cloud_init_rs.Prelude.Texts.{Text}
use cloud_init_rs.Result.{Exec, pure}
use cloud_init_rs.Os.{Os}
use cloud_init_rs.Stages.Boot.{Stage, Crates, run_stages}

pub data Commands : Type 0 where
  init local network config final : Commands
  query : Text → Commands
  clean : Bool → Commands
  status : Commands

pub record Cli : Type 0 where
  pub verbose : ℕ
  pub command : Option Commands

pub data Level : Type 0 where
  info debug trace : Level

-- The level that `init_logging` sets.
logging_level : ℕ → Level
logging_level verbosity = if eqb verbosity 0 then info else if eqb verbosity 1 then debug else trace

pub all_stages : List Stage
all_stages = Stage.local ∷ Stage.network ∷ Stage.config ∷ Stage.final ∷ []

module _ (os : Os) (crates : Crates) where
  pub run_command : Option Commands → Exec os.World (Unit {0})
  unfolding run_stages all_stages
  run_command none = run_stages os crates all_stages
  run_command (some init) = run_stages os crates all_stages
  run_command (some local) = run_stages os crates (Stage.local ∷ [])
  run_command (some network) = run_stages os crates (Stage.network ∷ [])
  run_command (some config) = run_stages os crates (Stage.config ∷ [])
  run_command (some final) = run_stages os crates (Stage.final ∷ [])
  run_command (some (query key)) = pure tt
  run_command (some (clean logs)) = pure tt
  run_command (some status) = pure tt

  pub main : Cli → Exec os.World (Unit {0})
  unfolding run_command
  main cli = run_command cli.command
