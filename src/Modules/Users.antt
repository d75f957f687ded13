-- ===== src/Modules/Users.antt =====
-- src/modules/users.rs
mod Tests
pub mod Sudo
use cloud_init_rs.Result.{◌>>=◌}
use cloud_init_rs.Result.{◌>>◌}
use cloud_init_rs.Prelude.{
  false, not, ◌&&◌, Option, none, some, List, [], ◌∷◌, ◌++◌, if◌then◌else◌, is_empty, unwrap_or,
}
use cloud_init_rs.Prelude.Texts.{Text, lit, ◌==◌, join, decimal}
use cloud_init_rs.Result.{Exec, pure, raise, query, map_err, ignore, when, for_each}
use cloud_init_rs.Result.{io, user_group}
use cloud_init_rs.Os.{Os, Output, command_of, success, exited_with, run_command}
use cloud_init_rs.State.Paths.{path_join}
use cloud_init_rs.Config.Types.{UserConfig, name, full, UserFullConfig}
use cloud_init_rs.Modules.SshKeys.{configure_user_ssh_keys}

-- `if let Some(v) = option { cmd.args([flag, v]); }`
abbrev flag : Text → Option Text → List Text
flag f none = []
flag f (some v) = f ∷ v ∷ []

-- The arguments of `useradd` for a full configuration.
pub useradd_args : UserFullConfig → List Text
unfolding lit decimal
useradd_args config =
    lit "--create-home"
    ∷ (flag (lit "--shell") config.shell
        ++ (flag (lit "--home-dir") config.homedir
            ++ (flag (lit "--comment") config.gecos
                ++ (elim config.uid [ none ↦ [] | some uid ↦ lit "--uid" ∷ decimal uid ∷ [] ]
                    ++ (flag (lit "--gid") config.primary_group
                        ++ ((if unwrap_or config.system false then lit "--system" ∷ [] else [])
                            ++ (config.name ∷ [])))))))

-- The file of a user's sudo rules, and its content.
pub sudoers_file : Text → Text
unfolding path_join lit
sudoers_file username = path_join (lit "/etc/sudoers.d") (lit "90-cloud-init-" ++ username)

-- Both branches of the test on the rule write the same text.
pub sudoers_content : Text → Text → Text
unfolding lit
sudoers_content username spec = username ++ (lit " " ++ (spec ++ lit "\n"))

module _ (os : Os) where
  -- `useradd`: the exit code 9 says that the user is there already.
  pub useradd : Text → List Text → Exec os.World (Unit {0})
  unfolding lit
  useradd username args = do
    o ← run_command os (command_of (lit "useradd") args)
    when (not (success o) && not (exited_with 9 o))
        (raise (user_group (lit "Failed to create user " ++ (username ++ (lit ": " ++ o.stderr)))))

  pub create_user_simple : Text → Exec os.World (Unit {0})
  unfolding useradd lit
  create_user_simple username = useradd username (lit "--create-home" ∷ username ∷ [])

  pub add_user_to_groups : Text → List Text → Exec os.World (Unit {0})
  unfolding lit join
  add_user_to_groups username groups = do
    o ← run_command os (
        command_of (lit "usermod")
          (lit "--append" ∷ lit "--groups" ∷ join (lit ",") groups ∷ username ∷ []))
    when (not (success o)) (
        raise (
          user_group (lit "Failed to add user " ++ (username ++ (lit " to groups: " ++ o.stderr)))))

  pub set_user_password : Text → Text → Exec os.World (Unit {0})
  unfolding lit
  set_user_password username hashed = do
    o ← run_command os (record {
      program = lit "chpasswd";
      args = lit "-e" ∷ [];
      env = [];
      stdin = some (username ++ (lit ":" ++ hashed));
    })
    when (not (success o)) (
        raise
          (user_group (lit "Failed to set password for " ++ (username ++ (lit ": " ++ o.stderr)))))

  -- A user without a password cannot be locked, which is only logged.
  pub lock_user_password : Text → Exec os.World (Unit {0})
  unfolding lit
  lock_user_password username = do
    o ← run_command os (command_of (lit "passwd") (lit "-l" ∷ username ∷ []))
    pure tt

  pub create_sudoers_dir : Exec os.World (Unit {0})
  unfolding lit
  create_sudoers_dir = do
    there ← query (os.exists (lit "/etc/sudoers.d"))
    when (not there) (map_err (os.create_dir_all (lit "/etc/sudoers.d")) io)

  -- What follows the check by `visudo`: an invalid file is taken away again.
  pub judge_sudoers : Text → Output → Exec os.World (Unit {0})
  unfolding lit
  judge_sudoers username o = when (not (success o)) (do
    ignore (map_err (os.remove_file (sudoers_file username)) io)
    raise (
        user_group
          (lit "Invalid sudoers configuration for " ++ (username ++ (lit ": " ++ o.stderr)))))

  pub validate_sudoers : Text → Exec os.World (Unit {0})
  unfolding judge_sudoers lit
  validate_sudoers username = do
    o ←
        run_command os
          (command_of (lit "visudo") (lit "-c" ∷ lit "-f" ∷ sudoers_file username ∷ []))
    judge_sudoers username o

  pub configure_sudo : Text → Text → Exec os.World (Unit {0})
  unfolding create_sudoers_dir validate_sudoers
  configure_sudo username spec = do
    create_sudoers_dir
    map_err (os.write (sudoers_file username) (sudoers_content username spec)) io
    map_err (os.set_permissions (sudoers_file username) 0o440) io
    validate_sudoers username

  -- `if let Some(v) = option { step(v)?; }`
  abbrev if_some : Option Text → (Text → Exec os.World (Unit {0})) → Exec os.World (Unit {0})
  if_some none step = pure tt
  if_some (some v) step = step v

  pub create_user_full : UserFullConfig → Exec os.World (Unit {0})
  unfolding useradd useradd_args add_user_to_groups set_user_password lock_user_password
      configure_sudo configure_user_ssh_keys
  create_user_full config = do
    useradd config.name (useradd_args config)
    when (not (is_empty config.groups)) (add_user_to_groups config.name config.groups)
    if_some config.passwd (set_user_password config.name)
    when (unwrap_or config.lock_passwd false) (lock_user_password config.name)
    if_some config.sudo (configure_sudo config.name)
    when (not (is_empty config.ssh_authorized_keys))
        (configure_user_ssh_keys os config.name config.ssh_authorized_keys)

  pub create_user : UserConfig → Exec os.World (Unit {0})
  unfolding create_user_simple create_user_full ◌==◌ lit
  create_user (name n) = if n == lit "default" then pure tt else create_user_simple n
  create_user (full config) = create_user_full config

  unfoldable pub create_users : List UserConfig → Exec os.World (Unit {0})
  unfolding create_user for_each
  create_users users = for_each create_user users
