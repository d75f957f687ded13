-- ===== src/Modules/Users/Tests.antt =====
-- Sudo rules on a machine whose `visudo` takes every file, and on one whose `visudo` takes none.
use cloud_init_rs.Prelude.{◌≡◌, refl, true, some, []}
use cloud_init_rs.Prelude.Texts.{lit}
use cloud_init_rs.Result.{ok}
use cloud_init_rs.Os.{Os, Output, success}
use cloud_init_rs.Os.Laws.{WriteLaws, ChmodLaws, RemoveLaws}
use cloud_init_rs.Os.Memory.{
  Files, no_files, memory, memory_WriteLaws, memory_ChmodLaws, memory_RemoveLaws,
}
use cloud_init_rs.Modules.Users.{
  configure_sudo, create_sudoers_dir, validate_sudoers, judge_sudoers, sudoers_file,
  sudoers_content,
}
use cloud_init_rs.Modules.Users.Sudo.{visudo, Refused, configure_sudo-eq-err, configure_sudo-eq-ok}

abbrev refusing : Os
refusing = record memory {
  output = λ c w. (ok (record { code = some 1; stdout = []; stderr = lit "bad" }), w);
}

refusing_RemoveLaws : RemoveLaws refusing
refusing_RemoveLaws = record {
  remove-exists = memory_RemoveLaws.remove-exists;
  remove-exists_ne = memory_RemoveLaws.remove-exists_ne;
}

refusing_WriteLaws : WriteLaws refusing
refusing_WriteLaws = record {
  write-exists = memory_WriteLaws.write-exists;
  write-read = memory_WriteLaws.write-read;
  write-exists_ne = memory_WriteLaws.write-exists_ne;
}

refusing_ChmodLaws : ChmodLaws refusing
refusing_ChmodLaws = record { chmod-read = memory_ChmodLaws.chmod-read }

abbrev accepted : Files
accepted = (configure_sudo memory (lit "u") (lit "ALL") no_files).1

abbrev refused : Files
refused = (configure_sudo refusing (lit "u") (lit "ALL") no_files).1

configure_sudo-eq-ok_example :
    (v : Files) × (o : Output) × (memory.read_to_string (sudoers_file (lit "u")) v
      ≡ ok (sudoers_content (lit "u") (lit "ALL")))
    × (visudo memory (lit "u") v ≡ (ok o, accepted))
    × (success o ≡ true)
unfolding configure_sudo create_sudoers_dir validate_sudoers judge_sudoers
configure_sudo-eq-ok_example =
    configure_sudo-eq-ok memory memory_WriteLaws memory_ChmodLaws (lit "u") (lit "ALL") no_files
      accepted refl

configure_sudo-eq-err_example :
    (u v : Files) × (memory.write
        (sudoers_file (lit "u"))
        (sudoers_content (lit "u") (lit "ALL"))
        (create_sudoers_dir refusing no_files).1
      ≡ (ok tt, u))
    × (memory.set_permissions (sudoers_file (lit "u")) 0o440 u ≡ (ok tt, v))
    × (memory.read_to_string (sudoers_file (lit "u")) v
        ≡ ok (sudoers_content (lit "u") (lit "ALL")))
    × Refused refusing (lit "u") (lit "Invalid sudoers configuration for u: bad") v refused
unfolding configure_sudo create_sudoers_dir validate_sudoers judge_sudoers lit
configure_sudo-eq-err_example =
    configure_sudo-eq-err refusing refusing_WriteLaws refusing_ChmodLaws refusing_RemoveLaws
      (lit "u") (lit "ALL") (lit "Invalid sudoers configuration for u: bad") no_files refused refl
