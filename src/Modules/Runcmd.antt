-- ===== src/Modules/Runcmd.antt =====
-- src/modules/runcmd.rs
mod Modes
mod Tests
use cloud_init_rs.Result.{◌>>◌}
use cloud_init_rs.Result.{◌>>=◌}
use cloud_init_rs.Config.Types.{continue}
use cloud_init_rs.Prelude.{
  ℕ, not, Option, none, some, List, [], ◌∷◌, ◌++◌, if◌then◌else◌, is_empty, unwrap_or,
}
use cloud_init_rs.Prelude.Texts.{Text, lit, trim, decimal}
use cloud_init_rs.Result.{Result, ok, err, Error, Exec, pure, raise, map_err, when}
use cloud_init_rs.Result.{command, attempt}
use cloud_init_rs.Os.{Os, command_of, success}
use cloud_init_rs.Config.Types.{RunCmd, shell, args, ErrorHandlingMode, abort, RuncmdConfig}

-- `DEFAULT_SHELL`
default_shell : Text
unfolding lit
default_shell = lit "/bin/sh"

-- `output.status.code().unwrap_or(-1)`, printed
exit_code : Option ℕ → Text
unfolding lit decimal
exit_code none = lit "-1"
exit_code (some n) = decimal n

module _ (os : Os) where
  pub execute_command : RunCmd → Text → Exec os.World (Unit {0})
  unfolding lit trim exit_code
  execute_command (shell line) sh = do
    o ←
        map_err (os.output (command_of sh (lit "-c" ∷ line ∷ [])))
          λ e. command (sh ++ lit ": " ++ e)
    when (not (success o)) (
        raise (
          command
            (lit "command exited with status " ++ exit_code o.code ++ lit ": " ++ trim o.stderr)))
  execute_command (args []) sh = pure tt
  execute_command (args (program ∷ rest)) sh = do
    o ← map_err (os.output (command_of program rest)) command
    when (not (success o)) (
        raise (
          command
            (lit "command exited with status " ++ exit_code o.code ++ lit ": " ++ trim o.stderr)))

  -- `match execute_command(…).await { … }`, in the loop
  pub on_result : ErrorHandlingMode → Result (Unit {0}) Error → Exec os.World (Unit {0})
  on_result mode (ok u) = pure tt
  on_result abort (err e) = raise e
  on_result continue (err e) = pure tt

  pub run_commands : ErrorHandlingMode → Text → List RunCmd → Exec os.World (Unit {0})
  unfolding execute_command on_result
  run_commands mode sh [] = pure tt
  run_commands mode sh (c ∷ cs) = do
    r ← attempt (execute_command c sh)
    on_result mode r
    run_commands mode sh cs

  pub shell_of : Option RuncmdConfig → Text
  unfolding default_shell
  shell_of none = default_shell
  shell_of (some c) = unwrap_or c.shell default_shell

  pub mode_of : Option RuncmdConfig → ErrorHandlingMode
  mode_of none = continue
  mode_of (some c) = unwrap_or c.error_handling continue

  pub execute_runcmd : List RunCmd → Option RuncmdConfig → Exec os.World (Unit {0})
  unfolding run_commands shell_of mode_of
  execute_runcmd commands config =
      if is_empty commands
      then pure tt
      else run_commands (mode_of config) (shell_of config) commands
