-- ===== src/Os.antt =====
-- The operating system as the program calls it: `tokio::fs`, `std::path::Path::exists`,
-- `tokio::process::Command` and the clock. None of it is code of the repository, so it is an
-- interface, and every definition that uses it takes it as a parameter.
pub mod Laws
pub mod Memory
use cloud_init_rs.Prelude.{ℕ, Bool, Option, some, none, List, []}
use cloud_init_rs.Prelude.{eqb}
use cloud_init_rs.Prelude.Texts.{Text}
use cloud_init_rs.Result.{Result, ok, err, IoError, Exec, ◌>>=◌, pure, map_err, attempt, command}

-- `Command::new(program).args(args).env(…)`, and what is written to its standard input.
pub record Command : Type 0 where
  pub program : Text
  pub args : List Text
  pub env : List (Text × Text)
  pub stdin : Option Text

abbrev pub command_of : Text → List Text → Command
command_of program args = record { program = program; args = args; env = []; stdin = none }

-- `Output`: the exit code, which a signal leaves out, and the two streams read as text.
pub record Output : Type 0 where
  pub code : Option ℕ
  pub stdout : Text
  pub stderr : Text

-- `output.status.success()`
abbrev pub success : Output → Bool
success o = elim o.code [ none ↦ Bool.false | some c ↦ eqb c 0 ]

-- `output.status.code() == Some(n)`
abbrev pub exited_with : ℕ → Output → Bool
exited_with n o = elim o.code [ none ↦ Bool.false | some c ↦ eqb c n ]

pub record Os : Type 1 where
  pub World : Type 0
  pub exists : Text → World → Bool
  -- `fs::metadata(p)` is `Ok` for a file
  pub is_file : Text → World → Bool
  pub is_symlink : Text → World → Bool
  pub read_to_string : Text → World → Result Text IoError
  -- the file names in a directory
  pub read_dir : Text → World → Result (List Text) IoError
  pub unix_seconds : World → ℕ
  pub create_dir_all : Text → World → Result (Unit {0}) IoError × World
  pub write : Text → Text → World → Result (Unit {0}) IoError × World
  pub remove_file : Text → World → Result (Unit {0}) IoError × World
  pub remove_dir_all : Text → World → Result (Unit {0}) IoError × World
  -- the target, then the link
  pub symlink : Text → Text → World → Result (Unit {0}) IoError × World
  pub set_permissions : Text → ℕ → World → Result (Unit {0}) IoError × World
  pub output : Command → World → Result Output IoError × World

-- `output().await.is_ok_and(|o| o.status.success())`
abbrev succeeded : Result Output IoError → Bool
succeeded (ok o) = success o
succeeded (err e) = Bool.false

-- A command that is tried: whether it was started and succeeded.
unfoldable pub try_command : (os : Os) → Command → Exec os.World Bool
try_command os c = do r ← attempt (os.output c); pure (succeeded r)

-- `.output().await.map_err(|e| CloudInitError::Command(e.to_string()))?`
abbrev pub run_command : (os : Os) → Command → Exec os.World Output
run_command os c = map_err (os.output c) command
