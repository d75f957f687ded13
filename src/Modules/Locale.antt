-- ===== src/Modules/Locale.antt =====
-- src/modules/locale.rs
use cloud_init_rs.Result.{◌>>◌}
use cloud_init_rs.Result.{◌>>=◌}
use cloud_init_rs.Prelude.{not, [], ◌∷◌, ◌++◌, if◌then◌else◌}
use cloud_init_rs.Prelude.Texts.{Text, lit}
use cloud_init_rs.Result.{Exec, pure, query, map_err, when}
use cloud_init_rs.Result.{io}
use cloud_init_rs.Os.{Os, command_of, try_command}

lang_line : Text → Text
unfolding lit
lang_line locale = lit "LANG=" ++ (locale ++ lit "\n")

module _ (os : Os) where
  write_locale_conf : Text → Exec os.World (Unit {0})
  unfolding lang_line lit
  write_locale_conf locale = map_err (os.write (lit "/etc/locale.conf") (lang_line locale)) io

  write_default_locale : Text → Exec os.World (Unit {0})
  unfolding lang_line lit
  write_default_locale locale = do
    there ← query (os.exists (lit "/etc/default"))
    when (not there) (map_err (os.create_dir_all (lit "/etc/default")) io)
    map_err (os.write (lit "/etc/default/locale") (lang_line locale)) io

  unfoldable pub set_locale : Text → Exec os.World (Unit {0})
  unfolding try_command write_locale_conf write_default_locale lit
  set_locale locale = do
    done ←
        try_command os
          (command_of (lit "localectl") (lit "set-locale" ∷ (lit "LANG=" ++ locale) ∷ []))
    if done then pure tt else do write_locale_conf locale; write_default_locale locale

  generate_locale : Text → Exec os.World (Unit {0})
  unfolding try_command lit
  generate_locale locale = do
    done ← try_command os (command_of (lit "locale-gen") (locale ∷ []))
    pure tt
