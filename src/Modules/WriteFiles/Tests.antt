-- ===== src/Modules/WriteFiles/Tests.antt =====
-- Writing files on a file system in memory; a text stands for its own bytes.
use cloud_init_rs.Prelude.{◌≡◌, refl, true, none, some, [], ◌∷◌}
use cloud_init_rs.Prelude.Texts.{Text, lit, ◌==◌, trim_start_matches}
use cloud_init_rs.Result.{ok, for_each}
use cloud_init_rs.Os.Memory.{Files, no_files, memory, memory_WriteLaws, memory_ChmodLaws}
use cloud_init_rs.State.Paths.{path_parent}
use cloud_init_rs.Config.Types.{WriteFileConfig}
use cloud_init_rs.Modules.WriteFiles.{
  Codecs, write_file, write_files, write_deferred_files, deferred, decode_content, create_parent,
  write_content, set_permissions, apply_mode, from_octal, octal_digits, own,
}
use cloud_init_rs.Modules.WriteFiles.Passes.{write_files-keep}
use cloud_init_rs.Modules.WriteFiles.Content.{write_file-read}

abbrev plain_codecs : Codecs
plain_codecs = record {
  base64_decode = λ t. ok t;
  from_utf8 = λ t. ok t;
  as_bytes = λ t. t;
  gunzip = λ t. ok t;
}

abbrev motd : WriteFileConfig
motd = record {
  path = lit "/etc/motd";
  content = lit "hi";
  encoding = some (lit "b64");
  owner = none;
  permissions = some (lit "0600");
  append = none;
  defer = none;
}

abbrev later : WriteFileConfig
later = record motd { defer = some true }

abbrev after : Files
after = (write_file memory plain_codecs motd no_files).1

write_file-read_example :
    (content : Text) × (decode_content plain_codecs (lit "hi") (some (lit "b64")) ≡ ok content)
    × (memory.read_to_string (lit "/etc/motd") after ≡ ok content)
unfolding write_file create_parent write_content set_permissions apply_mode from_octal octal_digits
    own decode_content path_parent lit trim_start_matches ◌==◌
write_file-read_example =
    write_file-read memory plain_codecs memory_WriteLaws memory_ChmodLaws motd no_files after refl
      refl refl

write_files-keep_example :
    (write_files memory plain_codecs (motd ∷ later ∷ []) no_files
      ≡ for_each (write_file memory plain_codecs) (motd ∷ []) no_files)
    × (write_deferred_files memory plain_codecs (motd ∷ later ∷ []) no_files
        ≡ for_each (write_file memory plain_codecs) (later ∷ []) no_files)
unfolding deferred
write_files-keep_example = write_files-keep memory plain_codecs (motd ∷ later ∷ []) no_files
