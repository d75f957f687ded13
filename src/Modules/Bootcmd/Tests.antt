-- ===== src/Modules/Bootcmd/Tests.antt =====
-- A machine without a shell.
use cloud_init_rs.Prelude.{refl, [], ◌∷◌}
use cloud_init_rs.Prelude.Texts.{lit}
use cloud_init_rs.Result.{err, for_each}
use cloud_init_rs.Result.{command}
use cloud_init_rs.Os.{Os}
use cloud_init_rs.Os.Memory.{no_files, memory}
use cloud_init_rs.Config.Types.{shell, args}
use cloud_init_rs.Modules.Bootcmd.{execute_command, execute_bootcmd}
use cloud_init_rs.Modules.Bootcmd.Failures.{NotStarted, execute_bootcmd-NotStarted}

abbrev no_programs : Os
no_programs = record memory { output = λ c w. (err (lit "not found"), w) }

execute_bootcmd-NotStarted_example : NotStarted no_programs (command (lit "not found"))
unfolding execute_bootcmd execute_command for_each
execute_bootcmd-NotStarted_example =
    execute_bootcmd-NotStarted no_programs (args [] ∷ shell (lit "ls") ∷ [])
      (command (lit "not found")) no_files no_files refl
