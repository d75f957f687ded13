-- ===== src/Stages/Boot/Runs.antt =====
-- What a run of the stages does, stage by stage.
use cloud_init_rs.Prelude.{◌≡◌, ap, sym, ◌↔◌, List, [], ◌∷◌}
use cloud_init_rs.Result.{Result, ok, Error, for_each}
use cloud_init_rs.Result.Steps.{bind-eq_settled}
use cloud_init_rs.Result.InTurn.{InTurn, then-InTurn_iff}
use cloud_init_rs.Os.{Os}
use cloud_init_rs.Stages.LocalStage
use cloud_init_rs.Stages.NetworkStage
use cloud_init_rs.Stages.ConfigStage
use cloud_init_rs.Stages.FinalStage
use cloud_init_rs.Stages.Boot.{Stage, local, network, config, final, Crates, run_stage, run_stages}
use cloud_init_rs.Stages.Boot.Errors.{final_run-Settles}

module _ (os : Os) (crates : Crates) where
  -- The local stage and the config stage can fail, and then nothing follows. The network stage
  -- does nothing to the machine, and what the final stage does cannot fail.
  abbrev pub Runs : List Stage → os.World → Result (Unit {0}) Error → os.World → Type 0
  Runs [] w r w' = (w ≡ w') × (r ≡ ok tt)
  Runs (local ∷ stages) w r w' =
      InTurn (LocalStage.run os crates.network_serde crates.tables) (Runs stages) w r w'
  Runs (network ∷ stages) w r w' = Runs stages w r w'
  Runs (config ∷ stages) w r w' =
      InTurn (ConfigStage.run os crates.codecs crates.serde) (Runs stages) w r w'
  Runs (final ∷ stages) w r w' = Runs stages (FinalStage.run os w).1 r w'

  -- A run of any stages ends with a result, on a machine, exactly if: the stages were carried
  -- out in order, each on the machine that the one before left, where network stages leave the
  -- machine alone and never fail, and final stages never fail; and either one of the local and
  -- config stages failed, and the result is its error, on the machine as it left it, with no
  -- later stage run; or none failed, and the result is success, on the machine after the last.
  pub run_stages-Runs_iff :
      (stages : List Stage) (w : os.World) (r : Result (Unit {0}) Error) (w' : os.World)
      → (run_stages os crates stages w ≡ (r, w')) ↔ Runs stages w r w'
  unfolding run_stages run_stage for_each NetworkStage.run
  run_stages-Runs_iff [] w r w' = (
    λ h. (
      ap (λ (q : Result (Unit {0}) Error × os.World). q.1) h,
      sym (ap (λ (q : Result (Unit {0}) Error × os.World). q.0) h),
    ),
    λ (e, f). λ i. (sym f i, e i),
  )
  run_stages-Runs_iff (local ∷ stages) w r w' =
      then-InTurn_iff (LocalStage.run os crates.network_serde crates.tables)
        (run_stages os crates stages) (Runs stages) w r w' (λ v. run_stages-Runs_iff stages v r w')
  run_stages-Runs_iff (network ∷ stages) w r w' = run_stages-Runs_iff stages w r w'
  run_stages-Runs_iff (config ∷ stages) w r w' =
      then-InTurn_iff (ConfigStage.run os crates.codecs crates.serde) (run_stages os crates stages)
        (Runs stages) w r w' (λ v. run_stages-Runs_iff stages v r w')
  run_stages-Runs_iff (final ∷ stages) w r w' =
      rw
        (bind-eq_settled (FinalStage.run os) (run_stages os crates stages) w (final_run-Settles os))
        (run_stages-Runs_iff stages (FinalStage.run os w).1 r w')
