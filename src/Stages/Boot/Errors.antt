-- ===== src/Stages/Boot/Errors.antt =====
-- How a run of the stages can fail.
use cloud_init_rs.Prelude.Texts.{lit}
use cloud_init_rs.Prelude.{◌≡◌, refl, ◌⊎◌, inl, inr}
use cloud_init_rs.Result.{Result, err, Error, Result-cases}
use cloud_init_rs.Result.Steps.{Settles}
use cloud_init_rs.Os.{Os}
use cloud_init_rs.Stages.LocalStage
use cloud_init_rs.Stages.NetworkStage
use cloud_init_rs.Stages.ConfigStage
use cloud_init_rs.Stages.FinalStage
use cloud_init_rs.Stages.Boot.{Crates}

pub final_run-Settles : (os : Os) → Settles (FinalStage.run os)
unfolding FinalStage.run
final_run-Settles os s = elim (Result-cases (os.create_dir_all (lit "/run/cloud-init") s).0) [
  | inl (u, e) ↦ rw e refl
  | inr (x, e) ↦ rw e refl
]

module _ (os : Os) (crates : Crates) where
  -- The error is one of the local stage or of the config stage, and the run ends where it was met.
  abbrev pub StageFailed : Error → os.World → Type 0
  StageFailed x w' =
      (v : os.World) × ((LocalStage.run os crates.network_serde crates.tables v ≡ (err x, w'))
        ⊎ (ConfigStage.run os crates.codecs crates.serde v ≡ (err x, w')))
