-- ===== src/Modules/Timezone.antt =====
-- src/modules/timezone.rs
use cloud_init_rs.Result.{◌>>◌}
use cloud_init_rs.Result.{◌>>=◌}
use cloud_init_rs.Prelude.{not, [], ◌∷◌, ◌++◌, if◌then◌else◌}
use cloud_init_rs.Prelude.Texts.{Text, lit}
use cloud_init_rs.Result.{Exec, pure, raise, query, map_err, when}
use cloud_init_rs.Result.{io, invalid_data}
use cloud_init_rs.Os.{Os, command_of, try_command}

zoneinfo : Text → Text
unfolding lit
zoneinfo timezone = lit "/usr/share/zoneinfo/" ++ timezone

module _ (os : Os) where
  set_localtime_symlink : Text → Exec os.World (Unit {0})
  unfolding zoneinfo lit
  set_localtime_symlink timezone = do
    there ← query (os.exists (lit "/etc/localtime"))
    when there (map_err (os.remove_file (lit "/etc/localtime")) io)
    map_err (os.symlink (zoneinfo timezone) (lit "/etc/localtime")) io

  write_etc_timezone : Text → Exec os.World (Unit {0})
  unfolding lit
  write_etc_timezone timezone = map_err (os.write (lit "/etc/timezone") (timezone ++ lit "\n")) io

  unfoldable pub set_timezone : Text → Exec os.World (Unit {0})
  unfolding zoneinfo try_command set_localtime_symlink write_etc_timezone lit
  set_timezone timezone = do
    there ← query (os.exists (zoneinfo timezone))
    when (not there) (
        raise (
          invalid_data
            (lit "Invalid timezone: " ++ (timezone ++ lit " (not found in /usr/share/zoneinfo)"))))
    done ← try_command os (command_of (lit "timedatectl") (lit "set-timezone" ∷ timezone ∷ []))
    if done then pure tt else do set_localtime_symlink timezone; write_etc_timezone timezone
