-- ===== src/Modules/Bootcmd/Failures.antt =====
-- Why the boot commands can fail.
use cloud_init_rs.Prelude.{◌≡◌, ap, ◌≢◌, inl, inr, List, [], ◌∷◌}
use cloud_init_rs.Result.{Result, ok, err, Error, IoError, ◌>>=◌, pure, for_each}
use cloud_init_rs.Result.{command}
use cloud_init_rs.Result.Steps.{bind-eq-err, map_err-eq-err}
use cloud_init_rs.Os.{Os, Command, run_command}
use cloud_init_rs.Config.Types.{RunCmd, shell, args}
use cloud_init_rs.Modules.Bootcmd.{execute_command, execute_bootcmd}

pure_ne :
    {S : Type 0} (s s' : S) (x : Error)
    → ◌≢◌ {A = Result (Unit {0}) Error × S} (ok tt, s) (err x, s')
pure_ne {S} s s' x h = cc (ap (λ (r : Result (Unit {0}) Error × S). r.0) h)

-- A command that could not be started, which is the error.
abbrev pub NotStarted : (os : Os) → Error → Type 0
NotStarted os x =
    (c : Command) × (v : os.World) × (e : IoError) × ((os.output c v).0 ≡ err e) × (command e ≡ x)

run_command-NotStarted :
    (os : Os) (c : Command) (x : Error) (w w' : os.World)
    → ◌≡◌ {A = Result (Unit {0}) Error × os.World}
        ((run_command os c >>= λ o. pure tt) w)
        (err x, w')
    → NotStarted os x
run_command-NotStarted os c x w w' h = elim (bind-eq-err (run_command os c) (λ o. pure tt) w h) [
  | inl failed ↦
      let (e, out, same) = map_err-eq-err (os.output c) command w failed in (c, w, e, out, same)
  | inr (o, v, ran, end) ↦ absurd (pure_ne v w' x end)
]

execute_command-NotStarted :
    (os : Os) (c : RunCmd) (x : Error) (w w' : os.World)
    → execute_command os c w ≡ (err x, w')
    → NotStarted os x
unfolding execute_command
execute_command-NotStarted os (shell line) x w w' h = run_command-NotStarted os _ x w w' h
execute_command-NotStarted os (args []) x w w' h = absurd (pure_ne w w' x h)
execute_command-NotStarted os (args (program ∷ rest)) x w w' h =
    run_command-NotStarted os _ x w w' h

-- When the boot commands fail, the error is that of a command that could not be started: how a
-- command that ran ended is never an error.
pub execute_bootcmd-NotStarted :
    (os : Os) (commands : List RunCmd) (x : Error) (w w' : os.World)
    → execute_bootcmd os commands w ≡ (err x, w')
    → NotStarted os x
unfolding execute_bootcmd for_each
execute_bootcmd-NotStarted os [] x w w' h = absurd (pure_ne w w' x h)
execute_bootcmd-NotStarted os (c ∷ commands) x w w' h =
    elim (bind-eq-err (execute_command os c) (λ _. for_each (execute_command os) commands) w h) [
      | inl failed ↦ execute_command-NotStarted os c x w w' failed
      | inr (u, v, done, rest) ↦ execute_bootcmd-NotStarted os commands x v w' rest
    ]
