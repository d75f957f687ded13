-- ===== src/CommandLine/Init.antt =====
-- The command that runs everything, and those that run one stage each.
use cloud_init_rs.Result.{Exec, ◌>>◌}
use cloud_init_rs.Os.{Os}
use cloud_init_rs.Stages.Boot.{Stage, Crates, run_stage, run_stages}
use cloud_init_rs.Prelude.{ℕ, ◌≡◌, ◌∙◌, Option, none, some, List, [], ◌∷◌, ◌++◌}
use cloud_init_rs.Result.Steps.{bind_cong, for_each-append}
use cloud_init_rs.CommandLine.{
  Commands, init, local, network, config, final, Cli, main, run_command, all_stages,
}

abbrev pub cli_of : ℕ → Option Commands → Cli
cli_of verbose command = record { verbose = verbose; command = command }

module _ (os : Os) (crates : Crates) (v : ℕ) where
  abbrev pub one_by_one : Exec os.World (Unit {0})
  one_by_one = do
    main os crates (cli_of v (some local))
    main os crates (cli_of v (some network))
    main os crates (cli_of v (some config))
    main os crates (cli_of v (some final))

  run_stages-append :
      (xs ys : List Stage) (w : os.World)
      → run_stages os crates (xs ++ ys) w ≡ (run_stages os crates xs >> run_stages os crates ys) w
  unfolding run_stages
  run_stages-append xs ys w = for_each-append (run_stage os crates) xs ys w

  only : Stage → Exec os.World (Unit {0})
  only s = run_stages os crates (s ∷ [])

  last_two :
      (w : os.World)
      → run_stages os crates (Stage.config ∷ Stage.final ∷ []) w
        ≡ (only Stage.config >> only Stage.final) w
  unfolding only
  last_two w = run_stages-append (Stage.config ∷ []) (Stage.final ∷ []) w

  last_three :
      (w : os.World)
      → run_stages os crates (Stage.network ∷ Stage.config ∷ Stage.final ∷ []) w
        ≡ (only Stage.network >> (only Stage.config >> only Stage.final)) w
  unfolding only
  last_three w =
      run_stages-append (Stage.network ∷ []) (Stage.config ∷ Stage.final ∷ []) w
      ∙ bind_cong (only Stage.network) _ _ w (λ _ v. last_two v)

  every_stage :
      (w : os.World)
      → run_stages os crates all_stages w
        ≡ (only Stage.local >> (only Stage.network >> (only Stage.config >> only Stage.final))) w
  unfolding only all_stages
  every_stage w =
      run_stages-append (Stage.local ∷ []) (Stage.network ∷ Stage.config ∷ Stage.final ∷ []) w
      ∙ bind_cong (only Stage.local) _ _ w (λ _ v. last_three v)

  -- The command init, and no command, do what the commands local, network, config and final do
  -- one after the other, where the first that fails is the last.
  pub main-eq-one_by_one :
      (w : os.World)
      → (main os crates (cli_of v (some init)) w ≡ one_by_one w)
        × (main os crates (cli_of v none) w ≡ one_by_one w)
  unfolding main run_command only
  main-eq-one_by_one w = (every_stage w, every_stage w)
