-- ===== src/Modules/RhSubscription.antt =====
-- src/modules/rh_subscription.rs
use cloud_init_rs.Result.{◌>>=◌}
use cloud_init_rs.Result.{◌>>◌}
use cloud_init_rs.Prelude.{
  false, not, ◌&&◌, Option, none, some, List, [], ◌∷◌, ◌++◌, map, if◌then◌else◌, is_empty, is_some,
  unwrap_or,
}
use cloud_init_rs.Prelude.Texts.{Text, lit, trim}
use cloud_init_rs.Result.{Result, ok, err, Error, Exec, raise, map_err, when, for_each}
use cloud_init_rs.Result.{command, module_error}
use cloud_init_rs.Os.{Os, command_of, success}
use cloud_init_rs.Config.Types.{RhSubscriptionConfig}

-- `if let Some(v) = option { args.push(format!("key={}", v)); }`
abbrev option_arg : Text → Option Text → List Text
option_arg key none = []
option_arg key (some v) = (key ++ v) ∷ []

-- The activation key comes before the user name.
auth_args : RhSubscriptionConfig → List Text
unfolding lit
auth_args config =
    if is_some config.activation_key && is_some config.org
    then option_arg (lit "--activationkey=") config.activation_key
      ++ option_arg (lit "--org=") config.org
    else if is_some config.username && is_some config.password
    then option_arg (lit "--username=") config.username
      ++ option_arg (lit "--password=") config.password
    else []

validate_config : RhSubscriptionConfig → Result (Unit {0}) Error
unfolding lit
validate_config config =
    if not (is_some config.username && is_some config.password)
      && not (is_some config.activation_key && is_some config.org)
    then err (
        module_error (lit "rh_subscription")
          (lit "rh_subscription requires either (username + password) or (activation-key + org)"))
    else ok tt

-- The message of a failure: the errors, or the output if there are none.
detail : Text → Text → Text
unfolding trim
detail stderr stdout = if is_empty (trim stderr) then trim stdout else trim stderr

module _ (os : Os) where
  run_subscription_manager : List Text → Exec os.World (Unit {0})
  unfolding detail lit
  run_subscription_manager args = do
    o ←
        map_err (os.output (command_of (lit "subscription-manager") args))
          λ e. command (lit "subscription-manager: " ++ e)
    when (not (success o)) (
        raise (
          module_error (lit "rh_subscription")
            (lit "subscription-manager failed: " ++ detail o.stderr o.stdout)))

  register : RhSubscriptionConfig → Exec os.World (Unit {0})
  unfolding run_subscription_manager auth_args lit
  register config = run_subscription_manager (
      lit "register"
      ∷ lit "--force"
      ∷ (option_arg (lit "--serverurl=") config.server_hostname
          ++ (option_arg (lit "--baseurl=") config.rhsm_baseurl ++ auth_args config)))

  auto_attach : Option Text → Exec os.World (Unit {0})
  unfolding run_subscription_manager lit
  auto_attach level =
      run_subscription_manager
        (lit "attach" ∷ lit "--auto" ∷ option_arg (lit "--servicelevel=") level)

  attach_pools : List Text → Exec os.World (Unit {0})
  unfolding run_subscription_manager lit for_each
  attach_pools pools =
      for_each (λ pool. run_subscription_manager (lit "attach" ∷ (lit "--pool=" ++ pool) ∷ []))
        pools

  enable_repos : List Text → Exec os.World (Unit {0})
  unfolding run_subscription_manager lit
  enable_repos repos =
      run_subscription_manager (lit "repos" ∷ map (λ r. lit "--enable=" ++ r) repos)

  disable_repos : List Text → Exec os.World (Unit {0})
  unfolding run_subscription_manager lit
  disable_repos repos =
      run_subscription_manager (lit "repos" ∷ map (λ r. lit "--disable=" ++ r) repos)

  unfoldable pub configure_rh_subscription : RhSubscriptionConfig → Exec os.World (Unit {0})
  unfolding validate_config register auto_attach attach_pools enable_repos disable_repos
  configure_rh_subscription config = do
    λ w. (validate_config config, w)
    register config
    if not (is_empty config.add_pool)
        then attach_pools config.add_pool
        else when (unwrap_or config.auto_attach false) (auto_attach config.service_level)
    when (not (is_empty config.enable_repo)) (enable_repos config.enable_repo)
    when (not (is_empty config.disable_repo)) (disable_repos config.disable_repo)
