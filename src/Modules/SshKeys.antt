-- ===== src/Modules/SshKeys.antt =====
-- src/modules/ssh_keys.rs
mod Tests
pub mod Written
use cloud_init_rs.Result.{◌>>=◌}
use cloud_init_rs.Prelude.Texts.{lines}
use cloud_init_rs.Prelude.{
  not, Option, none, some, List, [], ◌∷◌, ◌++◌, if◌then◌else◌, is_empty, unwrap_or,
}
use cloud_init_rs.Prelude.Texts.{Text, lit, ◌==◌, split_char, join}
use cloud_init_rs.Result.{Exec, ◌>>◌, pure, query, map_err, read_err, when}
use cloud_init_rs.Result.{io}
use cloud_init_rs.Os.{Os, command_of, run_command}
use cloud_init_rs.State.Paths.{path_join}

-- The home directory on a line of `/etc/passwd`, if it is the user's.
home_of : Text → List Text → Option Text
unfolding ◌==◌
home_of username (n ∷ x ∷ u ∷ g ∷ c ∷ home ∷ more) = if n == username then some home else none
home_of username _ = none

find_home : Text → List Text → Option Text
unfolding home_of split_char
find_home username [] = none
find_home username (l ∷ ls) = elim (home_of username (split_char b':' l)) [
  | some home ↦ some home
  | none ↦ find_home username ls
]

module _ (os : Os) where
  pub get_user_home : Text → Exec os.World Text
  unfolding find_home lines lit
  get_user_home username = do
    passwd ← read_err (os.read_to_string (lit "/etc/passwd")) io
    pure (unwrap_or (find_home username (lines passwd)) (lit "/home/" ++ username))

  -- A failure of the command itself is only logged.
  pub change_ownership : Text → Text → Exec os.World (Unit {0})
  unfolding lit
  change_ownership path username = do
    o ← run_command os (command_of (lit "chown") (username ∷ path ∷ []))
    pure tt

  pub create_ssh_dir : Text → Exec os.World (Unit {0})
  create_ssh_dir dir = do
    there ← query (os.exists dir)
    when (not there)
        (map_err (os.create_dir_all dir) io >> map_err (os.set_permissions dir 0o700) io)

  -- What `configure_user_ssh_keys` does in the user's home directory.
  pub configure_in_home : Text → Text → List Text → Exec os.World (Unit {0})
  unfolding create_ssh_dir change_ownership path_join join lit
  configure_in_home home username keys = do
    let ssh_dir = path_join home (lit ".ssh")
    let file = path_join ssh_dir (lit "authorized_keys")
    create_ssh_dir ssh_dir
    map_err (os.write file (join (lit "\n") keys ++ lit "\n")) io
    map_err (os.set_permissions file 0o600) io
    change_ownership ssh_dir username
    change_ownership file username

  unfoldable pub configure_user_ssh_keys : Text → List Text → Exec os.World (Unit {0})
  unfolding get_user_home configure_in_home
  configure_user_ssh_keys username keys =
      if is_empty keys
      then pure tt
      else (do home ← get_user_home username; configure_in_home home username keys)
