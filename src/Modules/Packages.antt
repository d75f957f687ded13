-- ===== src/Modules/Packages.antt =====
-- src/modules/packages.rs
use cloud_init_rs.Result.{◌>>=◌}
use cloud_init_rs.Prelude.{Bool, not, Option, none, some, List, [], ◌∷◌, ◌++◌, if◌then◌else◌}
use cloud_init_rs.Prelude.Texts.{Text, lit}
use cloud_init_rs.Result.{Exec, pure, raise, when}
use cloud_init_rs.Result.{module_error}
use cloud_init_rs.Os.{Os, Command, command_of, success, try_command, run_command}

pub data PackageManager : Type 0 where
  apt dnf yum zypper apk : PackageManager

-- A command's name and its first arguments.
unfoldable install_command : PackageManager → Text × List Text
unfolding lit
install_command apt = (lit "apt-get", lit "install" ∷ lit "-y" ∷ [])
install_command dnf = (lit "dnf", lit "install" ∷ lit "-y" ∷ [])
install_command yum = (lit "yum", lit "install" ∷ lit "-y" ∷ [])
install_command zypper = (lit "zypper", lit "--non-interactive" ∷ lit "install" ∷ [])
install_command apk = (lit "apk", lit "add" ∷ lit "--no-cache" ∷ [])

update_command : PackageManager → Text × List Text
unfolding lit
update_command apt = (lit "apt-get", lit "update" ∷ [])
update_command dnf = (lit "dnf", lit "check-update" ∷ [])
update_command yum = (lit "yum", lit "check-update" ∷ [])
update_command zypper = (lit "zypper", lit "--non-interactive" ∷ lit "refresh" ∷ [])
update_command apk = (lit "apk", lit "update" ∷ [])

upgrade_command : PackageManager → Text × List Text
unfolding lit
upgrade_command apt = (lit "apt-get", lit "upgrade" ∷ lit "-y" ∷ [])
upgrade_command dnf = (lit "dnf", lit "upgrade" ∷ lit "-y" ∷ [])
upgrade_command yum = (lit "yum", lit "update" ∷ lit "-y" ∷ [])
upgrade_command zypper = (lit "zypper", lit "--non-interactive" ∷ lit "update" ∷ [])
upgrade_command apk = (lit "apk", lit "upgrade" ∷ [])

-- The command, with `DEBIAN_FRONTEND` set.
noninteractive : Text × List Text → List Text → Command
unfolding lit
noninteractive c more = record {
  program = c.0;
  args = c.1 ++ more;
  env = (lit "DEBIAN_FRONTEND", lit "noninteractive") ∷ [];
  stdin = none;
}

module _ (os : Os) where
  command_exists : Text → Exec os.World Bool
  unfolding try_command lit
  command_exists c = try_command os (command_of (lit "which") (c ∷ []))

  -- `PackageManager::detect`, in order of preference
  detect : Exec os.World (Option PackageManager)
  unfolding command_exists lit
  detect = do
    has_apt ← command_exists (lit "apt-get")
    if has_apt then pure (some apt) else do
      has_dnf ← command_exists (lit "dnf")
      if has_dnf then pure (some dnf) else do
        has_yum ← command_exists (lit "yum")
        if has_yum then pure (some yum) else do
          has_zypper ← command_exists (lit "zypper")
          if has_zypper then pure (some zypper) else do
            has_apk ← command_exists (lit "apk")
            pure (if has_apk then some apk else none)

  -- `detect().await.ok_or_else(…)?`
  detected : Exec os.World PackageManager
  unfolding detect lit
  detected = do
    found ← detect
    elim found [
      | some pm ↦ pure pm
      | none ↦ raise (module_error (lit "packages") (lit "No supported package manager found"))
    ]

  -- How the command ended is only logged, here and in the upgrade.
  unfoldable pub update_package_cache : Exec os.World (Unit {0})
  unfolding detected update_command noninteractive
  update_package_cache = do
    pm ← detected
    o ← run_command os (noninteractive (update_command pm) [])
    pure tt

  unfoldable pub upgrade_packages : Exec os.World (Unit {0})
  unfolding detected upgrade_command noninteractive
  upgrade_packages = do
    pm ← detected
    o ← run_command os (noninteractive (upgrade_command pm) [])
    pure tt

  unfoldable pub install_packages : List Text → Exec os.World (Unit {0})
  unfolding detected install_command noninteractive lit
  install_packages [] = pure tt
  install_packages (p ∷ ps) = do
    pm ← detected
    o ← run_command os (noninteractive (install_command pm) (p ∷ ps))
    when (not (success o))
        (raise (module_error (lit "packages") (lit "Failed to install packages: " ++ o.stderr)))

  install_package : Text → Exec os.World (Unit {0})
  unfolding install_packages
  install_package p = install_packages (p ∷ [])
