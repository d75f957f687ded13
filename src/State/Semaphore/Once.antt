-- ===== src/State/Semaphore/Once.antt =====
-- A module runs until it is marked, and again once its marker is cleared.
use cloud_init_rs.Prelude.{◌≡◌, refl, ap, inl, inr, Bool, true, false, Bool-cases}
use cloud_init_rs.Prelude.Texts.{Text, decimal}
use cloud_init_rs.Result.{Result, Error, ok}
use cloud_init_rs.Result.{io}
use cloud_init_rs.Result.Steps.{bind-eq-ok, map_err-eq-ok}
use cloud_init_rs.Os.{Os}
use cloud_init_rs.Os.Laws.{WriteLaws, RemoveLaws}
use cloud_init_rs.State.Semaphore.{
  Frequency, per_boot, per_instance, per_once, always, SemaphoreManager, sem_path, should_run,
  mark_done, clear, create_parent, write_marker, clear_marker,
}

-- What `should_run` answers after `mark_done`.
abbrev pub runs_again : Frequency → Bool
runs_again per_boot = true
runs_again always = true
runs_again per_instance = false
runs_again per_once = false

module _ (os : Os) where
  -- The steps of a `mark_done` that succeeded: the directory, then the marker.
  pub write_marker-eq-ok :
      (path : Text) (w w' : os.World)
      → write_marker os path w ≡ (ok tt, w')
      → (stamp : Text) × (v : os.World) × (create_parent os path w ≡ (ok tt, v))
        × (os.write path stamp v ≡ (ok tt, w'))
  unfolding write_marker
  write_marker-eq-ok path w w' h =
      let (u, v, made, rest) = bind-eq-ok (create_parent os path) _ w h in
      let stamp = decimal (os.unix_seconds v) in
      (stamp, v, made, map_err-eq-ok (os.write path stamp) io v rest)

  module _ (laws : WriteLaws os) where
    -- After mark_done succeeded, should_run for the same module and frequency answers false for
    -- per-instance and per-once, and true for per-boot and always.
    pub should_run-mark_done :
        (m : SemaphoreManager) (name : Text) (freq : Frequency) (w w' : os.World)
        → mark_done os m name freq w ≡ (ok tt, w')
        → should_run os m name freq w' ≡ (ok (runs_again freq), w')
    unfolding should_run mark_done sem_path
    should_run-mark_done m name per_boot w w' h = refl
    should_run-mark_done m name always w w' h = refl
    should_run-mark_done m name per_instance w w' h =
        let (stamp, v, made, wrote) = write_marker-eq-ok _ w w' h in
        rw (laws.write-exists _ stamp v w' wrote)
    should_run-mark_done m name per_once w w' h =
        let (stamp, v, made, wrote) = write_marker-eq-ok _ w w' h in
        rw (laws.write-exists _ stamp v w' wrote)

  module _ (laws : RemoveLaws os) where
    pub clear_marker-gone :
        (path : Text) (w w' : os.World)
        → clear_marker os path w ≡ (ok tt, w')
        → os.exists path w' ≡ false
    unfolding clear_marker
    clear_marker-gone path w w' h = elim (Bool-cases (os.exists path w)) [
      | inl there ↦
          laws.remove-exists path w w' (map_err-eq-ok (os.remove_file path) io w (rw there at h))
      | inr gone ↦
          let same : w ≡ w' = ap (λ (r : Result (Unit {0}) Error × os.World). r.1) (rw gone at h) in
          rw (← same) gone
    ]

    -- After clear succeeded, should_run for the same module and frequency answers true.
    pub should_run-clear :
        (m : SemaphoreManager) (name : Text) (freq : Frequency) (w w' : os.World)
        → clear os m name freq w ≡ (ok tt, w')
        → should_run os m name freq w' ≡ (ok true, w')
    unfolding should_run clear sem_path
    should_run-clear m name per_boot w w' h = refl
    should_run-clear m name always w w' h = refl
    should_run-clear m name per_instance w w' h = rw (clear_marker-gone _ w w' h)
    should_run-clear m name per_once w w' h = rw (clear_marker-gone _ w w' h)
