-- ===== src/Stages/ConfigStage/Errors.antt =====
-- When the config stage fails.
use cloud_init_rs.Prelude.{
  ◌≡◌, refl, sym, ap, ◌∙◌, ◌≢◌, ◌⊎◌, inl, inr, Bool, true, false, not, Option, none, some, List, [],
  ◌∷◌, is_empty, keep, unwrap_or,
}
use cloud_init_rs.Prelude.Texts.{Text}
use cloud_init_rs.Result.{Result, ok, err, Error, Exec, ◌>>◌, ignore, when}
use cloud_init_rs.Result.Steps.{
  Settles, bind-eq-err, bind-eq_settled, bind-Settles, when-ignore-Settles,
}
use cloud_init_rs.Os.{Os}
use cloud_init_rs.Config.Types.{CloudConfig, Serde, WriteFileConfig}
use cloud_init_rs.Modules.WriteFiles.{Codecs}
use cloud_init_rs.Modules.Packages.{install_packages, update_package_cache, upgrade_packages}
use cloud_init_rs.Modules.Hostname.{set_hostname_fqdn}
use cloud_init_rs.Modules.Timezone.{set_timezone}
use cloud_init_rs.Modules.Locale.{set_locale}
use cloud_init_rs.Modules.Groups.{create_groups}
use cloud_init_rs.Modules.Users.{create_users}
use cloud_init_rs.Modules.RhSubscription.{configure_rh_subscription}
use cloud_init_rs.Modules.YumAddRepo.{add_yum_repos}
use cloud_init_rs.Stages.ConfigStage.{
  load_cloud_config, apply_system_config, apply_groups, apply_users, apply_write_files, write_each,
  apply_rh_subscription, apply_yum_repos, apply_packages, apply, run, if_some, same_pass,
}

if_some-ignore-Settles :
    {S A : Type 0} (o : Option A) (m : A → Exec S (Unit {0}))
    → Settles (if_some o (λ a. ignore (m a)))
if_some-ignore-Settles none m s = refl
if_some-ignore-Settles (some a) m s = refl

ok-ne-err : {x : Error} → ◌≢◌ {A = Result (Unit {0}) Error} (ok tt) (err x)
ok-ne-err e = cc

module _ (os : Os) (codecs : Codecs) (c : CloudConfig) where
  apply_system_config-Settles : Settles (apply_system_config os codecs c)
  unfolding apply_system_config
  apply_system_config-Settles = bind-Settles _ _ (if_some-ignore-Settles c.hostname host) (
      bind-Settles _ _ (if_some-ignore-Settles c.timezone (set_timezone os))
        (if_some-ignore-Settles c.locale (set_locale os)))
    where
      host : Text → Exec os.World (Unit {0})
      host name = set_hostname_fqdn os name c.fqdn (unwrap_or c.manage_etc_hosts false)

  apply_groups-Settles : Settles (apply_groups os codecs c)
  unfolding apply_groups
  apply_groups-Settles = when-ignore-Settles (not (is_empty c.groups)) (create_groups os c.groups)

  apply_users-Settles : Settles (apply_users os codecs c)
  unfolding apply_users
  apply_users-Settles = when-ignore-Settles (not (is_empty c.users)) (create_users os c.users)

  write_each-Settles : (fs : List WriteFileConfig) → Settles (write_each os codecs fs)
  unfolding write_each
  write_each-Settles [] s = refl
  write_each-Settles (f ∷ fs) s = write_each-Settles fs _

  apply_write_files-Settles : (deferred : Bool) → Settles (apply_write_files os codecs c deferred)
  unfolding apply_write_files
  apply_write_files-Settles deferred = write_each-Settles (keep (same_pass deferred) c.write_files)

  apply_rh_subscription-Settles : Settles (apply_rh_subscription os codecs c)
  unfolding apply_rh_subscription
  apply_rh_subscription-Settles =
      if_some-ignore-Settles c.rh_subscription (λ rh. configure_rh_subscription os rh)

  apply_yum_repos-Settles : Settles (apply_yum_repos os codecs c)
  unfolding apply_yum_repos
  apply_yum_repos-Settles =
      when-ignore-Settles (not (is_empty c.yum_repos)) (add_yum_repos os c.yum_repos)

  -- The steps before the packages.
  abbrev before_packages : os.World → os.World
  before_packages w =
      let w1 = (apply_system_config os codecs c w).1 in
      let w2 = (apply_groups os codecs c w1).1 in
      let w3 = (apply_users os codecs c w2).1 in
      let w4 = (apply_write_files os codecs c false w3).1 in
      let w5 = (apply_rh_subscription os codecs c w4).1 in (apply_yum_repos os codecs c w5).1

  apply-eq :
      (w : os.World)
      → apply os codecs c w
        ≡ (apply_packages os codecs c >> apply_write_files os codecs c true) (before_packages w)
  unfolding apply
  apply-eq w =
      rw
        (
          apply_system_config-Settles w,
          apply_groups-Settles,
          apply_users-Settles,
          apply_write_files-Settles false,
          apply_rh_subscription-Settles,
          apply_yum_repos-Settles,
        )
        refl

  -- Before the installation the package lists may be refreshed, which cannot fail.
  abbrev before_install : os.World → os.World
  before_install w =
      let w1 = (when (unwrap_or c.package_update false) (ignore (update_package_cache os)) w).1 in
      (when (unwrap_or c.package_upgrade false) (ignore (upgrade_packages os)) w1).1

  apply_packages-eq :
      (w : os.World)
      → apply_packages os codecs c w ≡ install_packages os c.packages (before_install w)
  unfolding apply_packages
  apply_packages-eq w =
      let update = when (unwrap_or c.package_update false) (ignore (update_package_cache os)) in
      let upgrade = when (unwrap_or c.package_upgrade false) (ignore (upgrade_packages os)) in
      let install = install_packages os c.packages in
      bind-eq_settled update (upgrade >> install) w
        (when-ignore-Settles (unwrap_or c.package_update false) (update_package_cache os))
      ∙ bind-eq_settled upgrade install (update w).1
          (when-ignore-Settles (unwrap_or c.package_upgrade false) (upgrade_packages os))

  -- A failure of the modules is one of the installation.
  apply-eq-err :
      (w w' : os.World) (x : Error)
      → apply os codecs c w ≡ (err x, w')
      → (v : os.World) × (install_packages os c.packages v ≡ (err x, w'))
  apply-eq-err w w' x h =
      elim (bind-eq-err (apply_packages os codecs c) (λ _. apply_write_files os codecs c true)
        (before_packages w) (sym (apply-eq w) ∙ h)) [
          | inl failed ↦ (
            before_install (before_packages w),
            sym (apply_packages-eq (before_packages w)) ∙ failed,
          )
          | inr (u, v, done, late) ↦ absurd (
              ok-ne-err (
                sym (apply_write_files-Settles true v)
                ∙ ap (λ (r : Result (Unit {0}) Error × os.World). r.0) late))
        ]

-- When the config stage fails, either the cloud-config could not be loaded, or it was loaded and
-- the installation of its packages failed with that error, as the last thing done: no other
-- module's failure, and none of the refreshing of the package lists, stops the stage.
pub run-eq-err :
    (os : Os) (codecs : Codecs) (serde : Serde) (x : Error) (w w' : os.World)
    → run os codecs serde w ≡ (err x, w')
    → (load_cloud_config os serde w ≡ (err x, w'))
      ⊎ ((c : CloudConfig) × (v : os.World) × ((load_cloud_config os serde w).0 ≡ ok c)
          × (install_packages os c.packages v ≡ (err x, w')))
unfolding run
run-eq-err os codecs serde x w w' h =
    elim (bind-eq-err (load_cloud_config os serde) (λ c. apply os codecs c) w h) [
      | inl failed ↦ inl failed
      | inr (c, v, loaded, rest) ↦
          let (u, installing) = apply-eq-err os codecs c v w' x rest in
          inr (c, u, ap (λ (r : Result CloudConfig Error × os.World). r.0) loaded, installing)
    ]
