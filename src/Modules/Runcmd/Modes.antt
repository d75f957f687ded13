-- ===== src/Modules/Runcmd/Modes.antt =====
-- The two error handling modes of runcmd.
use cloud_init_rs.Prelude.Texts.{Text}
use cloud_init_rs.Modules.Runcmd.{on_result}
use cloud_init_rs.Prelude.{◌≡◌, refl, inl, inr, Option, List, [], ◌∷◌, ◌++◌}
use cloud_init_rs.Result.{ok, err, Error, for_each, Result-cases}
use cloud_init_rs.Result.Steps.{bind-eq-ok, pure-eq-ok}
use cloud_init_rs.Os.{Os}
use cloud_init_rs.Config.Types.{RunCmd, continue, abort, RuncmdConfig}
use cloud_init_rs.Modules.Runcmd.{execute_command, run_commands, execute_runcmd, shell_of, mode_of}

module _ (os : Os) where
  -- The machine after every command was run in turn, whatever each gave back.
  abbrev pub after_all : Text → List RunCmd → os.World → os.World
  after_all sh [] w = w
  after_all sh (c ∷ cs) w = after_all sh cs (execute_command os c sh w).1

  execute-eq-run :
      (commands : List RunCmd) (config : Option RuncmdConfig) (w : os.World)
      → execute_runcmd os commands config w
        ≡ run_commands os (mode_of os config) (shell_of os config) commands w
  unfolding execute_runcmd run_commands
  execute-eq-run [] config w = refl
  execute-eq-run (c ∷ cs) config w = refl

  run-continue :
      (sh : Text) (commands : List RunCmd) (w : os.World)
      → run_commands os continue sh commands w ≡ (ok tt, after_all sh commands w)
  unfolding run_commands on_result
  run-continue sh [] w = refl
  run-continue sh (c ∷ cs) w = elim (Result-cases (execute_command os c sh w).0) [
    | inl (u, e) ↦ rw e (run-continue sh cs (execute_command os c sh w).1)
    | inr (x, e) ↦ rw e (run-continue sh cs (execute_command os c sh w).1)
  ]

  run-abort :
      (sh : Text) (pre : List RunCmd) (c : RunCmd) (post : List RunCmd) (x : Error)
      (w w' w'' : os.World)
      → for_each (λ d. execute_command os d sh) pre w ≡ (ok tt, w')
      → execute_command os c sh w' ≡ (err x, w'')
      → run_commands os abort sh (pre ++ c ∷ post) w ≡ (err x, w'')
  unfolding run_commands on_result for_each
  run-abort sh [] c post x w w' w'' h e = rw ((pure-eq-ok h).1, e) refl
  run-abort sh (d ∷ pre) c post x w w' w'' h e =
      let (u, t, first, others) =
        bind-eq-ok (execute_command os d sh) (λ _. for_each (λ c. execute_command os c sh) pre) w
          h in
      rw first (run-abort sh pre c post x t w' w'' others e)

  -- When errors are set to be ignored, runcmd runs every command in order, on the machine that
  -- the earlier ones left, and succeeds.
  pub execute_runcmd-continue :
      (commands : List RunCmd) (config : Option RuncmdConfig) (w : os.World)
      → mode_of os config ≡ continue
      → execute_runcmd os commands config w ≡ (ok tt, after_all (shell_of os config) commands w)
  execute_runcmd-continue commands config w h =
      rw (execute-eq-run commands config w, h) (run-continue (shell_of os config) commands w)

  -- When errors are set to abort, the commands before one succeed and that one fails, runcmd
  -- fails with its error, and the machine is as that command left it: no later command is run.
  pub execute_runcmd-abort :
      (pre : List RunCmd) (c : RunCmd) (post : List RunCmd) (config : Option RuncmdConfig)
      (x : Error) (w w' w'' : os.World)
      → mode_of os config ≡ abort
      → for_each (λ d. execute_command os d (shell_of os config)) pre w ≡ (ok tt, w')
      → execute_command os c (shell_of os config) w' ≡ (err x, w'')
      → execute_runcmd os (pre ++ c ∷ post) config w ≡ (err x, w'')
  execute_runcmd-abort pre c post config x w w' w'' m h e =
      rw (execute-eq-run (pre ++ c ∷ post) config w, m)
        (run-abort (shell_of os config) pre c post x w w' w'' h e)
