-- ===== src/State/Semaphore/Isolation.antt =====
-- A marker is seen by the instance that wrote it; a marker for once is seen by all.
use cloud_init_rs.Prelude.{
  ◌≡◌, refl, sym, ap, ◌∙◌, ◌≢◌, inl, inr, Bool, true, false, some, ◌∷◌, ◌++◌, Option-cases,
}
use cloud_init_rs.Prelude.Texts.{Text, lit}
use cloud_init_rs.Result.{Result, ok, Error}
use mathlib.Core.List.{append_cancel_right}
use cloud_init_rs.Result.{io}
use cloud_init_rs.Result.Steps.{map_err-eq-ok}
use cloud_init_rs.Os.{Os}
use cloud_init_rs.Os.Laws.{WriteLaws, MkdirLaws}
use cloud_init_rs.State.Paths.{CloudPaths, path_join, path_parent, sem_dir, data_dir, is_absolute}
use cloud_init_rs.State.Paths.Laws.{
  IsDirectory, IsId, path_join_relative, sem_dir_injective, sem_dir-IsDirectory,
}
use cloud_init_rs.State.Semaphore.{
  Frequency, per_boot, per_instance, per_once, always, SemaphoreManager, new_manager, sem_path,
  should_run, mark_done, create_parent, write_marker,
}
use cloud_init_rs.State.Semaphore.Once.{write_marker-eq-ok, should_run-mark_done}

-- The manager that `set_instance_id` and `load_cached_instance_id` make for an instance.
abbrev pub manager_for : CloudPaths → Text → SemaphoreManager
manager_for paths id = new_manager (sem_dir paths id) (data_dir paths)

-- The directory of a marker is there.
abbrev pub HasParent : (os : Os) → Text → os.World → Type 0
HasParent os path w = (d : Text) → path_parent path ≡ some d → os.exists d w ≡ true

module _ (os : Os) (mkdir : MkdirLaws os) (write : WriteLaws os) where
  create_parent-exists :
      (p q : Text) (w w' : os.World)
      → HasParent os p w
      → create_parent os p w ≡ (ok tt, w')
      → os.exists q w' ≡ os.exists q w
  unfolding create_parent
  create_parent-exists p q w w' there h = elim (Option-cases (path_parent p)) [
    | inl root ↦
        let same : w ≡ w' =
          ap (λ (r : Result (Unit {0}) Error × os.World). r.1) (rw (root, create_parent) at h) in
        rw (← same)
    | inr (d, below) ↦
        mkdir.mkdir-exists d q w w' (there d below)
          (map_err-eq-ok (os.create_dir_all d) io w (rw (below, create_parent) at h))
  ]

  -- Writing one marker leaves every other path as it was.
  pub write_marker-exists_ne :
      (p q : Text) (w w' : os.World)
      → HasParent os p w
      → p ≢ q
      → write_marker os p w ≡ (ok tt, w')
      → os.exists q w' ≡ os.exists q w
  write_marker-exists_ne p q w w' there ne h =
      let (stamp, v, made, wrote) = write_marker-eq-ok os p w w' h in
      write.write-exists_ne p stamp q v w' wrote ne ∙ create_parent-exists p q w v there made

-- The markers of one module under two instances are two files.
module _ (paths : CloudPaths) (base : IsDirectory paths.base) where
  marker_ne :
      (id id' name : Text)
      → IsId id
      → IsId id'
      → id ≢ id'
      → path_join (sem_dir paths id) (lit "config_" ++ name)
        ≢ path_join (sem_dir paths id') (lit "config_" ++ name)
  unfolding is_absolute lit
  marker_ne id id' name h h' ne e =
      let suffix : Text = b'/' ∷ (lit "config_" ++ name) in
      let whole : sem_dir paths id ++ suffix ≡ sem_dir paths id' ++ suffix =
        sym
          (path_join_relative _ (lit "config_" ++ name) (sem_dir-IsDirectory paths base id h) refl)
        ∙ (e
            ∙ path_join_relative _ (lit "config_" ++ name) (sem_dir-IsDirectory paths base id' h')
                refl) in
      ne (sem_dir_injective paths base id id' h h' (append_cancel_right _ _ suffix whole))

-- The answer of `should_run` under another instance, given its answer before.
abbrev pub elsewhere : Frequency → Result Bool Error → Result Bool Error
elsewhere per_instance before = before
elsewhere per_once before = ok false
elsewhere _ before = ok true

-- For two different instance ids that are plain relative names, a base directory that is neither
-- empty nor ends in a slash, and a marker whose directory is there: after mark_done under one id
-- succeeded, should_run under the other answers what it answered before for per-instance, false
-- for per-once, and true for per-boot and always.
pub should_run-mark_done-elsewhere :
    (os : Os) (mkdir : MkdirLaws os) (write : WriteLaws os) (paths : CloudPaths)
    (id id' name : Text) (freq : Frequency) (w w' : os.World)
    → IsDirectory paths.base
    → IsId id
    → IsId id'
    → id ≢ id'
    → ((p : Text) → sem_path (manager_for paths id) name freq ≡ some p → HasParent os p w)
    → mark_done os (manager_for paths id) name freq w ≡ (ok tt, w')
    → (should_run os (manager_for paths id') name freq w').0
      ≡ elsewhere freq (should_run os (manager_for paths id') name freq w).0
unfolding should_run mark_done sem_path
should_run-mark_done-elsewhere os mkdir write paths id id' name per_boot w w' b h h' ne there e =
    refl
should_run-mark_done-elsewhere os mkdir write paths id id' name always w w' b h h' ne there e = refl
should_run-mark_done-elsewhere os mkdir write paths id id' name per_once w w' b h h' ne there e =
    ap (λ (r : Result Bool Error × os.World). r.0)
      (should_run-mark_done os write (manager_for paths id) name per_once w w' e)
should_run-mark_done-elsewhere os mkdir write paths id id' name per_instance w w' b h h' ne there
      e =
    rw (
      write_marker-exists_ne os mkdir write _ _ w w' (there _ refl)
        (marker_ne paths b id id' name h h' ne) e)
