-- ===== src/Modules/YumAddRepo.antt =====
-- src/modules/yum_add_repo.rs
use cloud_init_rs.Result.{◌>>◌}
use cloud_init_rs.Prelude.Texts.{written}
use cloud_init_rs.Prelude.{
  Bool, true, false, not, ◌&&◌, Option, none, some, List, [], ◌∷◌, ◌++◌, if◌then◌else◌, is_empty,
  is_some, unwrap_or,
}
use cloud_init_rs.Prelude.Texts.{Text, lit, decimal}
use cloud_init_rs.Result.{Exec, pure, raise, map_err, ignore, when}
use cloud_init_rs.Result.{module_error}
use cloud_init_rs.Os.{Os}
use cloud_init_rs.Network.Types.{HashMap}
use cloud_init_rs.Config.Types.{YumRepoConfig}

yum_repos_dir : Text
unfolding lit
yum_repos_dir = lit "/etc/yum.repos.d"

-- `if let Some(v) = option { writeln!(out, "key={}", v); }`
abbrev setting : {A : Type 0} → Text → (A → Text) → Option A → List Text
setting key show none = []
setting key show (some v) = (key ++ show v) ∷ []

abbrev self_text : Text → Text
self_text t = t

one_or_zero : Bool → Text
unfolding lit
one_or_zero true = lit "1"
one_or_zero false = lit "0"

build_repo_content : Text → YumRepoConfig → Text
unfolding written one_or_zero decimal lit
build_repo_content id config = written (
    (lit "[" ++ (id ++ lit "]"))
    ∷ (lit "name=" ++ unwrap_or config.name id)
    ∷ (setting (lit "baseurl=") self_text config.baseurl
        ++ (setting (lit "mirrorlist=") self_text config.mirrorlist
            ++ (setting (lit "metalink=") self_text config.metalink
                ++ (((lit "enabled=" ++ one_or_zero (unwrap_or config.enabled true)) ∷ [])
                    ++ (setting (lit "gpgcheck=") one_or_zero config.gpgcheck
                        ++ (setting (lit "gpgkey=") self_text config.gpgkey
                            ++ (setting (lit "priority=") decimal config.priority
                                ++ (setting (lit "failovermethod=") self_text config.failovermethod
                                    ++ (setting (lit "sslverify=") one_or_zero config.sslverify
                                        ++ (setting (lit "sslclientcert=") self_text
                                              config.sslclientcert
                                            ++ (setting (lit "sslclientkey=") self_text
                                                  config.sslclientkey
                                                ++ setting (lit "sslcacert=") self_text
                                                    config.sslcacert))))))))))))

module _ (os : Os) where
  write_repo_file : Text → YumRepoConfig → Exec os.World (Unit {0})
  unfolding yum_repos_dir build_repo_content lit
  write_repo_file id config = do
    let path = yum_repos_dir ++ (lit "/" ++ (id ++ lit ".repo"))
    when
        (not (is_some config.baseurl)
          && not (is_some config.mirrorlist)
          && not (is_some config.metalink))
        (raise (
          module_error (lit "yum_add_repo") (
            lit "repo '"
            ++ (id ++ lit "' must have at least one of: baseurl, mirrorlist, metalink"))))
    map_err (os.write path (build_repo_content id config))
        λ e. module_error (lit "yum_add_repo") (lit "failed to write " ++ (path ++ (lit ": " ++ e)))

  -- A repository that cannot be written is logged.
  write_repos : HashMap YumRepoConfig → Exec os.World (Unit {0})
  unfolding write_repo_file
  write_repos [] = pure tt
  write_repos ((id, config) ∷ more) = do ignore (write_repo_file id config); write_repos more

  unfoldable pub add_yum_repos : HashMap YumRepoConfig → Exec os.World (Unit {0})
  unfolding yum_repos_dir write_repos lit
  add_yum_repos repos = if is_empty repos then pure tt else do
    map_err (os.create_dir_all yum_repos_dir) λ e.
        module_error (lit "yum_add_repo")
          (lit "failed to create " ++ (yum_repos_dir ++ (lit ": " ++ e)))
    write_repos repos
