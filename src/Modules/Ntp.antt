-- ===== src/Modules/Ntp.antt =====
-- src/modules/ntp.rs
use cloud_init_rs.Result.{◌>>=◌}
use cloud_init_rs.Result.{◌>>◌}
use cloud_init_rs.Prelude.Texts.{written}
use cloud_init_rs.Prelude.{
  Bool, true, false, not, List, [], ◌∷◌, ◌++◌, map, if◌then◌else◌, is_empty,
}
use cloud_init_rs.Prelude.Texts.{Text, lit, join}
use cloud_init_rs.Result.{Exec, pure, query, map_err}
use cloud_init_rs.Result.{io}
use cloud_init_rs.Os.{Os, command_of, try_command}

pub record NtpConfig : Type 0 where
  pub servers : List Text
  pub pools : List Text
  pub enabled : Bool

abbrev default_ntp : NtpConfig
unfolding lit
default_ntp = record { servers = []; pools = lit "pool.ntp.org" ∷ []; enabled = true }

-- `server … iburst` and `pool … iburst`
source_lines : NtpConfig → List Text
unfolding lit
source_lines config =
    map (λ s. lit "server " ++ (s ++ lit " iburst")) config.servers
    ++ map (λ p. lit "pool " ++ (p ++ lit " iburst")) config.pools

build_chrony_content : NtpConfig → Text
unfolding source_lines written lit
build_chrony_content config = written (
    lit "# Configured by cloud-init-rs"
    ∷ (source_lines config
        ++ (lit ""
            ∷ lit "# Common settings"
            ∷ lit "driftfile /var/lib/chrony/drift"
            ∷ lit "makestep 1.0 3"
            ∷ lit "rtcsync"
            ∷ [])))

build_timesyncd_content : NtpConfig → Text
unfolding join written lit
build_timesyncd_content config =
    let sources = if not (is_empty config.servers) then config.servers else config.pools in
    written (
      lit "# Configured by cloud-init-rs"
      ∷ lit "[Time]"
      ∷ (lit "NTP=" ++ join (lit " ") sources)
      ∷ [])

build_ntpd_content : NtpConfig → Text
unfolding source_lines written lit
build_ntpd_content config = written (
    lit "# Configured by cloud-init-rs"
    ∷ lit "driftfile /var/lib/ntp/drift"
    ∷ lit ""
    ∷ (source_lines config
        ++ (lit ""
            ∷ lit "# Access control"
            ∷ lit "restrict default kod nomodify notrap nopeer noquery"
            ∷ lit "restrict 127.0.0.1"
            ∷ lit "restrict ::1"
            ∷ [])))

module _ (os : Os) where
  -- A service that is not restarted is only logged.
  restart_service : Text → Exec os.World (Unit {0})
  unfolding try_command lit
  restart_service service = do
    done ← try_command os (command_of (lit "systemctl") (lit "restart" ∷ service ∷ []))
    pure tt

  -- The file is written and the service restarted.
  configured : Text → Text → Text → Exec os.World Bool
  unfolding restart_service
  configured file content service = do
    map_err (os.write file content) io
    restart_service service
    pure true

  try_configure_chrony : NtpConfig → Exec os.World Bool
  unfolding configured build_chrony_content lit
  try_configure_chrony config = do
    has_conf ← query (os.exists (lit "/etc/chrony.conf"))
    has_d ← query (os.exists (lit "/etc/chrony/chrony.conf"))
    if has_conf
        then configured (lit "/etc/chrony.conf") (build_chrony_content config) (lit "chronyd")
        else if has_d
        then configured (lit "/etc/chrony/chrony.conf") (build_chrony_content config)
            (lit "chronyd")
        else pure false

  try_configure_timesyncd : NtpConfig → Exec os.World Bool
  unfolding configured build_timesyncd_content try_command lit
  try_configure_timesyncd config = do
    on ←
        try_command os
          (command_of (lit "systemctl") (lit "is-enabled" ∷ lit "systemd-timesyncd" ∷ []))
    if on
        then configured (lit "/etc/systemd/timesyncd.conf") (build_timesyncd_content config)
            (lit "systemd-timesyncd")
        else pure false

  try_configure_ntpd : NtpConfig → Exec os.World Bool
  unfolding configured build_ntpd_content lit
  try_configure_ntpd config = do
    there ← query (os.exists (lit "/etc/ntp.conf"))
    if there
        then configured (lit "/etc/ntp.conf") (build_ntpd_content config) (lit "ntpd")
        else pure false

  -- The services in order of preference, until one is configured.
  configure_ntp : NtpConfig → Exec os.World (Unit {0})
  unfolding try_configure_chrony try_configure_timesyncd try_configure_ntpd
  configure_ntp config = if not config.enabled then pure tt else do
    chrony ← try_configure_chrony config
    if chrony then pure tt else do
      timesyncd ← try_configure_timesyncd config
      if timesyncd then pure tt else do ntpd ← try_configure_ntpd config; pure tt
