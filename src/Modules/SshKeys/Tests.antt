-- ===== src/Modules/SshKeys/Tests.antt =====
-- A key for a user of a machine in memory, where every path holds the same text.
use cloud_init_rs.Prelude.{◌≡◌, refl, some, [], ◌∷◌, ◌++◌}
use cloud_init_rs.Prelude.Texts.{Text, lit, join}
use cloud_init_rs.Result.{ok}
use cloud_init_rs.Os.Memory.{Files, memory, memory_WriteLaws, memory_ChmodLaws, memory_ChownLaws}
use cloud_init_rs.Modules.SshKeys.{
  configure_user_ssh_keys, get_user_home, configure_in_home, create_ssh_dir, change_ownership,
}
use cloud_init_rs.Modules.SshKeys.Written.{keys_file, configure_user_ssh_keys-read}

abbrev machine : Files
machine p = some []

abbrev after : Files
after = (configure_user_ssh_keys memory (lit "u") (lit "key" ∷ []) machine).1

configure_user_ssh_keys-read_example :
    (home : Text) × ((get_user_home memory (lit "u") machine).0 ≡ ok home)
    × (memory.read_to_string (keys_file home) after
        ≡ ok (join (lit "\n") (lit "key" ∷ []) ++ lit "\n"))
unfolding configure_user_ssh_keys get_user_home configure_in_home create_ssh_dir change_ownership
configure_user_ssh_keys-read_example =
    configure_user_ssh_keys-read memory memory_WriteLaws memory_ChmodLaws memory_ChownLaws (lit "u")
      (lit "key") [] machine after refl
