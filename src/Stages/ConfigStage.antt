-- ===== src/Stages/ConfigStage.antt =====
-- src/stages/config.rs
pub mod Tests
pub mod Errors
use cloud_init_rs.Result.{◌>>=◌}
use cloud_init_rs.Result.{◌>>◌}
use cloud_init_rs.Prelude.{
  Bool, true, false, not, Option, none, some, List, [], ◌∷◌, ◌++◌, if◌then◌else◌, is_empty, keep,
  unwrap_or,
}
use cloud_init_rs.Prelude.Texts.{Text, lit}
use cloud_init_rs.Result.{Result, ok, err, Error, Exec, pure, query, read_err, ignore, when}
use cloud_init_rs.Result.{io, invalid_data}
use cloud_init_rs.Os.{Os}
use cloud_init_rs.State.Paths
use cloud_init_rs.State.Paths.{CloudPaths}
use cloud_init_rs.State.Instance.{new_state, load_cached_instance_id}
use cloud_init_rs.Config.Types.{
  CloudConfig, default_config, Serde, from_yaml, is_cloud_config, WriteFileConfig,
}
use cloud_init_rs.Modules.WriteFiles.{Codecs, write_file}
use cloud_init_rs.Modules.Hostname.{set_hostname_fqdn}
use cloud_init_rs.Modules.Timezone.{set_timezone}
use cloud_init_rs.Modules.Locale.{set_locale}
use cloud_init_rs.Modules.Groups.{create_groups}
use cloud_init_rs.Modules.Users.{create_users}
use cloud_init_rs.Modules.RhSubscription.{configure_rh_subscription}
use cloud_init_rs.Modules.YumAddRepo.{add_yum_repos}
use cloud_init_rs.Modules.Packages.{update_package_cache, upgrade_packages, install_packages}

-- `.map_err(|e| CloudInitError::InvalidData(format!(…)))`
or_invalid : Text → Result CloudConfig Text → Result CloudConfig Error
or_invalid message (ok c) = ok c
or_invalid message (err e) = err (invalid_data (message ++ e))

-- `if let Some(v) = option { step(v) }`
abbrev if_some : {S A : Type 0} → Option A → (A → Exec S (Unit {0})) → Exec S (Unit {0})
if_some none step = pure tt
if_some (some v) step = step v

-- `f.defer.unwrap_or(false) == deferred`
same_pass : Bool → WriteFileConfig → Bool
same_pass deferred file =
    if deferred then unwrap_or file.defer false else not (unwrap_or file.defer false)

module _ (os : Os) (serde : Serde) where
  -- The parts of `load_cloud_config`: a file that is there, and the files of an instance.
  pub load_file : Text → Text → Exec os.World CloudConfig
  unfolding or_invalid from_yaml
  load_file path message = do
    content ← read_err (os.read_to_string path) io
    λ w. (or_invalid message (from_yaml serde content), w)

  pub load_userdata : Text → Exec os.World CloudConfig
  unfolding or_invalid from_yaml is_cloud_config lit
  load_userdata path = do
    there ← query (os.exists path)
    if not there then pure default_config else do
      content ← read_err (os.read_to_string path) io
      if is_cloud_config content
          then (λ w. (or_invalid (lit "Failed to parse user-data: ") (from_yaml serde content), w))
          else pure default_config

  pub load_instance : CloudPaths → Option Text → Exec os.World CloudConfig
  unfolding load_file load_userdata lit
  load_instance paths none = pure default_config
  load_instance paths (some id) = do
    there ← query (os.exists (Paths.cloud_config paths id))
    if there
        then load_file (Paths.cloud_config paths id) (lit "Failed to parse cloud-config: ")
        else load_userdata (Paths.user_data paths id)

  pub load_cloud_config : Exec os.World CloudConfig
  unfolding load_instance load_cached_instance_id
  load_cloud_config = do
    found ← load_cached_instance_id os new_state
    load_instance (found.0).paths found.1

module _ (os : Os) (codecs : Codecs) where
  -- A failure of a module is logged, here and below.
  pub apply_system_config : CloudConfig → Exec os.World (Unit {0})
  apply_system_config config = do
    if_some config.hostname λ name.
        ignore (set_hostname_fqdn os name config.fqdn (unwrap_or config.manage_etc_hosts false))
    if_some config.timezone λ tz. ignore (set_timezone os tz)
    if_some config.locale λ loc. ignore (set_locale os loc)

  pub apply_groups : CloudConfig → Exec os.World (Unit {0})
  apply_groups config =
      when (not (is_empty config.groups)) (ignore (create_groups os config.groups))

  pub apply_users : CloudConfig → Exec os.World (Unit {0})
  apply_users config = when (not (is_empty config.users)) (ignore (create_users os config.users))

  -- The loop of `apply_write_files`.
  pub write_each : List WriteFileConfig → Exec os.World (Unit {0})
  write_each [] = pure tt
  write_each (f ∷ fs) = do ignore (write_file os codecs f); write_each fs

  pub apply_write_files : CloudConfig → Bool → Exec os.World (Unit {0})
  unfolding write_each same_pass
  apply_write_files config deferred = write_each (keep (same_pass deferred) config.write_files)

  pub apply_rh_subscription : CloudConfig → Exec os.World (Unit {0})
  apply_rh_subscription config =
      if_some config.rh_subscription λ rh. ignore (configure_rh_subscription os rh)

  pub apply_yum_repos : CloudConfig → Exec os.World (Unit {0})
  apply_yum_repos config =
      when (not (is_empty config.yum_repos)) (ignore (add_yum_repos os config.yum_repos))

  -- A failed update or upgrade is logged, a failed installation is not dropped.
  pub apply_packages : CloudConfig → Exec os.World (Unit {0})
  apply_packages config = do
    when (unwrap_or config.package_update false) (ignore (update_package_cache os))
    when (unwrap_or config.package_upgrade false) (ignore (upgrade_packages os))
    install_packages os config.packages

  -- The modules of the stage, in order.
  pub apply : CloudConfig → Exec os.World (Unit {0})
  apply config = do
    apply_system_config config
    apply_groups config
    apply_users config
    apply_write_files config false
    apply_rh_subscription config
    apply_yum_repos config
    apply_packages config
    apply_write_files config true

unfoldable pub run : (os : Os) (codecs : Codecs) (serde : Serde) → Exec os.World (Unit {0})
unfolding load_cloud_config apply
run os codecs serde = do config ← load_cloud_config os serde; apply os codecs config
