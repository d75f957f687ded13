-- ===== src/Modules/Bootcmd.antt =====
-- src/modules/bootcmd.rs
pub mod Failures
mod Tests
use cloud_init_rs.Result.{◌>>=◌}
use cloud_init_rs.Prelude.{List, [], ◌∷◌}
use cloud_init_rs.Prelude.Texts.{lit}
use cloud_init_rs.Result.{Exec, pure, for_each}
use cloud_init_rs.Os.{Os, command_of, run_command}
use cloud_init_rs.Config.Types.{RunCmd, shell, args}

module _ (os : Os) where
  -- Only a command that cannot be started is an error: how it ended is logged.
  pub execute_command : RunCmd → Exec os.World (Unit {0})
  unfolding lit
  execute_command (shell line) = do
    o ← run_command os (command_of (lit "sh") (lit "-c" ∷ line ∷ []))
    pure tt
  execute_command (args []) = pure tt
  execute_command (args (program ∷ rest)) = do o ← run_command os (command_of program rest); pure tt

  pub execute_bootcmd : List RunCmd → Exec os.World (Unit {0})
  unfolding execute_command for_each
  execute_bootcmd commands = for_each execute_command commands
