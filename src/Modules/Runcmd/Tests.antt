-- ===== src/Modules/Runcmd/Tests.antt =====
-- Runcmd on a machine where every command succeeds, and on one where none can be started.
use cloud_init_rs.Prelude.{◌≡◌, refl, none, some, List, [], ◌∷◌}
use cloud_init_rs.Prelude.Texts.{lit}
use cloud_init_rs.Result.{ok, err, for_each}
use cloud_init_rs.Result.{command}
use cloud_init_rs.Os.{Os}
use cloud_init_rs.Os.Memory.{no_files, memory}
use cloud_init_rs.Config.Types.{RunCmd, shell, args, abort, RuncmdConfig}
use cloud_init_rs.Modules.Runcmd.{execute_command, execute_runcmd, shell_of, mode_of, default_shell}
use cloud_init_rs.Modules.Runcmd.Modes.{after_all, execute_runcmd-continue, execute_runcmd-abort}

-- Only a command with no program in its list succeeds.
abbrev no_programs : Os
no_programs = record memory { output = λ c w. (err (lit "not found"), w) }

abbrev three : List RunCmd
three = args [] ∷ shell (lit "false") ∷ args (lit "reboot" ∷ []) ∷ []

abbrev on_error_abort : RuncmdConfig
on_error_abort = record { shell = none; error_handling = some abort }

execute_runcmd-continue_example :
    execute_runcmd no_programs three none no_files
    ≡ (ok tt, after_all no_programs (shell_of no_programs none) three no_files)
unfolding mode_of
execute_runcmd-continue_example = execute_runcmd-continue no_programs three none no_files refl

execute_runcmd-abort_example :
    execute_runcmd no_programs three (some on_error_abort) no_files
    ≡ (err (command (lit "/bin/sh: not found")), no_files)
unfolding mode_of shell_of default_shell execute_command for_each lit
execute_runcmd-abort_example =
    execute_runcmd-abort no_programs (args [] ∷ []) (shell (lit "false"))
      (args (lit "reboot" ∷ []) ∷ []) (some on_error_abort) (command (lit "/bin/sh: not found"))
      no_files no_files no_files refl refl refl
