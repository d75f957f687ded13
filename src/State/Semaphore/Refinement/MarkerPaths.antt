-- ===== src/State/Semaphore/Refinement/MarkerPaths.antt =====
-- The paths of an instance's markers, and the refinement of the set of modules that are done.
use cloud_init_rs.Prelude.{
  ℕ, ◌≡◌, refl, sym, ap, ◌∙◌, ◌≢◌, List, [], ◌∷◌, ◌++◌, append-nil, append_assoc, arith, length,
  length-append, All,
}
use cloud_init_rs.Prelude.Texts.{Text, lit}
use cloud_init_rs.Result.{ok, for_each}
use mathlib.Core.List.{append_cancel_left}
use cloud_init_rs.Os.{Os}
use cloud_init_rs.Os.Laws.{WriteLaws, RemoveLaws, MkdirLaws}
use cloud_init_rs.State.Paths.{CloudPaths, sem_dir, data_dir, is_absolute, ends_with_slash}
use cloud_init_rs.State.Paths.Laws.{
  IsDirectory, IsId, IsDirectory-append, path_join_relative, sem_dir_lem, instances_dir_lem,
  sem_dir-IsDirectory,
}
use cloud_init_rs.State.Semaphore.{Frequency, SemaphoreManager, should_run}
use cloud_init_rs.State.Semaphore.Isolation.{manager_for}
use cloud_init_rs.State.Semaphore.Refinement.{
  Scope, instance_scope, once_scope, Done, runs, Operation, abstract_run, perform, marker,
  directory, IsName, name_of, Layout, Represents, for_each-Represents, should_run-runs,
}

-- A marker's name behind its directory.
suffix : Text → Text
suffix n = b'/' ∷ (lit "config_" ++ n)

suffix_injective : (n k : Text) → suffix n ≡ suffix k → n ≡ k
unfolding suffix
suffix_injective n k e = append_cancel_left (b'/' ∷ lit "config_") n k e

abbrev second : Text → ℕ
second (a ∷ b ∷ t) = b
second t = 0

append-ne : (s : Text) (n : Text) → s ++ suffix n ≢ s
unfolding suffix
append-ne s n e = absurd (omega (arith, ap length e, length-append s (b'/' ∷ (lit "config_" ++ n))))

module _ (paths : CloudPaths) (id : Text) (base : IsDirectory paths.base) (h : IsId id) where
  m : SemaphoreManager
  m = manager_for paths id

  data_dir_lem : data_dir paths ≡ paths.base ++ (b'/' ∷ lit "data")
  unfolding data_dir is_absolute lit
  data_dir_lem = path_join_relative paths.base (lit "data") base refl

  data_dir-IsDirectory : IsDirectory (data_dir paths)
  unfolding lit ends_with_slash
  data_dir-IsDirectory = rw data_dir_lem (IsDirectory-append paths.base (lit "data") (cc, refl))

  once_directory : directory m once_scope ≡ data_dir paths ++ (b'/' ∷ lit "sem")
  unfolding m directory is_absolute lit
  once_directory = path_join_relative (data_dir paths) (lit "sem") data_dir-IsDirectory refl

  marker_lem : (s : Scope) (n : Text) → marker m s n ≡ directory m s ++ suffix n
  unfolding m marker directory suffix is_absolute lit
  marker_lem instance_scope n =
      path_join_relative (sem_dir paths id) (lit "config_" ++ n)
        (sem_dir-IsDirectory paths base id h) refl
  marker_lem once_scope n =
      path_join_relative (data_dir paths) (lit "sem/config_" ++ n) data_dir-IsDirectory refl
      ∙ (sym (append_assoc (data_dir paths) (b'/' ∷ lit "sem") (b'/' ∷ (lit "config_" ++ n)))
          ∙ ap (λ d. d ++ (b'/' ∷ (lit "config_" ++ n))) (sym once_directory))

  -- The two directories part behind the base.
  directories_ne : (x y : Text) → directory m instance_scope ++ x ≢ directory m once_scope ++ y
  unfolding m directory lit
  directories_ne x y e =
      let left : directory m instance_scope ++ x
          ≡ paths.base ++ (lit "/instances" ++ ((b'/' ∷ id) ++ (lit "/sem" ++ x))) =
        rw (sem_dir_lem paths base id h, instances_dir_lem paths base) (simp append_assoc) in
      let right : directory m once_scope ++ y ≡ paths.base ++ (lit "/data" ++ (lit "/sem" ++ y)) =
        rw (once_directory, data_dir_lem) (simp append_assoc) in
      absurd (omega (arith, ap second (append_cancel_left paths.base _ _ (sym left ∙ (e ∙ right)))))

  marker_injective : (s t : Scope) (n k : Text) → marker m s n ≡ marker m t k → (s ≡ t) × (n ≡ k)
  marker_injective s t n k e = go s t (sym (marker_lem s n) ∙ (e ∙ marker_lem t k))
    where
      go : (s t : Scope) → directory m s ++ suffix n ≡ directory m t ++ suffix k → (s ≡ t) × (n ≡ k)
      go instance_scope instance_scope e =
          (refl, suffix_injective n k (append_cancel_left (directory m instance_scope) _ _ e))
      go once_scope once_scope e =
          (refl, suffix_injective n k (append_cancel_left (directory m once_scope) _ _ e))
      go instance_scope once_scope e = absurd (directories_ne (suffix n) (suffix k) e)
      go once_scope instance_scope e = absurd (directories_ne (suffix k) (suffix n) (sym e))

  marker-ne-directory : (s t : Scope) (n : Text) → marker m s n ≢ directory m t
  marker-ne-directory s t n e = go s t (sym (marker_lem s n) ∙ e)
    where
      go : (s t : Scope) → directory m s ++ suffix n ≢ directory m t
      go instance_scope instance_scope e = append-ne (directory m instance_scope) n e
      go once_scope once_scope e = append-ne (directory m once_scope) n e
      go instance_scope once_scope e =
          directories_ne (suffix n) [] (e ∙ sym (append-nil (directory m once_scope)))
      go once_scope instance_scope e =
          directories_ne [] (suffix n) (append-nil (directory m instance_scope) ∙ sym e)

  manager-Layout : Layout m
  manager-Layout = record {
    marker_injective = marker_injective;
    marker-ne-directory = marker-ne-directory;
  }

-- For an instance id that is a plain relative name and a base directory that is neither empty
-- nor ends in a slash: when the markers on the machine are those of a set of modules, for the
-- instance and once, and their directories are there, and a sequence of calls of mark_done and
-- clear succeeds, for modules whose markers stand in these directories themselves, then
-- should_run answers, for every module and frequency, what the same sequence of insertions into
-- the set and removals from it makes of the set.
pub should_run-abstract_run :
    (os : Os) (writes : WriteLaws os) (removes : RemoveLaws os) (mkdirs : MkdirLaws os)
    (paths : CloudPaths) (id : Text)
    → IsDirectory paths.base
    → IsId id
    → (ops : List Operation) (d : Done) (w w' : os.World)
    → All (λ op. IsName (manager_for paths id) (name_of op)) ops
    → Represents os (manager_for paths id) d w
    → for_each (perform os (manager_for paths id)) ops w ≡ (ok tt, w')
    → (name : Text) (freq : Frequency)
    → should_run os (manager_for paths id) name freq w'
      ≡ (ok (runs freq name (abstract_run ops d)), w')
unfolding m
should_run-abstract_run os writes removes mkdirs paths id base h ops d w w' names r run name freq =
    let layout = manager-Layout paths id base h in
    let after =
      for_each-Represents os writes removes mkdirs (manager_for paths id) layout ops d w w' names r
        run in
    should_run-runs os writes removes mkdirs (manager_for paths id) layout freq name
      (abstract_run ops d) w' after
