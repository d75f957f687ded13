-- ===== src/State/Instance/Cache.antt =====
-- What the cached instance id says on the next boot.
use cloud_init_rs.Prelude.{
  ◌≡◌, sym, ap, ◌∙◌, ◌≢◌, ◌↔◌, inl, inr, Bool, true, false, some, [], arith, Bool-cases,
}
use cloud_init_rs.Prelude.Texts.{Text, ◌==◌, ==_iff, trim}
use cloud_init_rs.Result.{ok, ◌>>◌, pure}
use cloud_init_rs.Result.{io}
use cloud_init_rs.Result.Steps.{bind-eq-ok, map_err-eq-ok, pure-eq-ok}
use cloud_init_rs.Os.{Os}
use cloud_init_rs.Os.Laws.{WriteLaws}
use cloud_init_rs.State.Paths
use cloud_init_rs.State.Instance.{
  InstanceState, with_paths, identified, check_instance_change, compare_id, update_instance_link,
  set_instance_id, load_cached_instance_id, create_dir_all, write,
}

module _ (os : Os) (laws : WriteLaws os) where
  -- The last step of a successful `set_instance_id` writes the id.
  set_instance_id-writes :
      (st st' : InstanceState) (id : Text) (is_new : Bool) (w w' : os.World)
      → set_instance_id os st id w ≡ (ok (st', is_new), w')
      → (v : os.World) × (os.write (Paths.cached_instance_id st.paths) id v ≡ (ok tt, w'))
        × (st' ≡ identified st id)
  unfolding set_instance_id
  set_instance_id-writes st st' id is_new w w' h =
      let (a, w1, e1, h1) = bind-eq-ok (check_instance_change os st id) _ w h in
      let (b, w2, e2, h2) =
        bind-eq-ok (create_dir_all os (Paths.instance_dir st.paths id)) _ w1 h1 in
      let (c, w3, e3, h3) = bind-eq-ok (create_dir_all os (Paths.sem_dir st.paths id)) _ w2 h2 in
      let (d, w4, e4, h4) = bind-eq-ok (update_instance_link os st id) _ w3 h3 in
      let (e, w5, e5, h5) = bind-eq-ok (write os (Paths.cached_instance_id st.paths) id) _ w4 h4 in
      let (same, end) = pure-eq-ok h5 in
      (
        w4,
        rw end at (map_err-eq-ok (os.write (Paths.cached_instance_id st.paths) id) io w4 e5),
        sym (ap (λ (p : InstanceState × Bool). p.0) same),
      )

  module _ (st st' : InstanceState) (id : Text) (is_new : Bool) (w w' : os.World)
      (set : set_instance_id os st id w ≡ (ok (st', is_new), w')) where
    cached-exists : os.exists (Paths.cached_instance_id st.paths) w' ≡ true
    cached-exists =
        let (v, wrote, _) = set_instance_id-writes st st' id is_new w w' set in
        laws.write-exists _ id v w' wrote

    cached-read : os.read_to_string (Paths.cached_instance_id st.paths) w' ≡ ok id
    cached-read =
        let (v, wrote, _) = set_instance_id-writes st st' id is_new w w' set in
        laws.write-read _ id v w' wrote

    -- The next check compares with the trimmed id.
    pub check_after_set :
        (id' : Text) → check_instance_change os st id' w' ≡ compare_id os st.paths id' id w'
    unfolding check_instance_change
    check_after_set id' = rw (cached-exists, cached-read)

    -- After set_instance_id succeeded with an id, the next check_instance_change answers that
    -- nothing changed for exactly those ids that equal the first one with its outer whitespace
    -- trimmed.
    pub check-eq-false_iff :
        (id' : Text) → ((check_instance_change os st id' w').0 ≡ ok false) ↔ (trim id ≡ id')
    unfolding compare_id
    check-eq-false_iff id' = rw (check_after_set id') (ground (arith, ==_iff (trim id) id'))

    -- After set_instance_id succeeded with an id that is not empty and has no outer whitespace,
    -- a new state on the same paths loads that id and the semaphore manager of its instance.
    pub load_after_set :
        trim id ≡ id
        → id ≢ []
        → load_cached_instance_id os (with_paths st.paths) w'
          ≡ (ok (identified (with_paths st.paths) id, some id), w')
    unfolding load_cached_instance_id
    load_after_set plain some_id = rw (cached-exists, cached-read, plain) (ground (arith))

-- When an id is cached and differs, trimmed, from the new one, a check_instance_change that
-- succeeds answers that the instance is new, and the previous instance id then holds the trimmed
-- cached id.
pub check_saves_previous :
    (os : Os) (laws : WriteLaws os) (st : InstanceState) (id cached : Text) (is_new : Bool)
    (w w' : os.World)
    → os.exists (Paths.cached_instance_id st.paths) w ≡ true
    → os.read_to_string (Paths.cached_instance_id st.paths) w ≡ ok cached
    → trim cached ≢ id
    → check_instance_change os st id w ≡ (ok is_new, w')
    → (is_new ≡ true)
      × (os.read_to_string (Paths.previous_instance_id st.paths) w' ≡ ok (trim cached))
unfolding check_instance_change compare_id
check_saves_previous os laws st id cached is_new w w' there read ne h =
    elim (Bool-cases (trim cached == id)) [
      | inl same ↦ absurd (ne ((==_iff _ _).0 same))
      | inr other ↦
          let previous = write os (Paths.previous_instance_id st.paths) (trim cached) in
          let run : check_instance_change os st id w ≡ (previous >> pure true) w =
            rw (there, read, other) in
          let (u, v, wrote, end) = bind-eq-ok previous _ w (sym run ∙ h) in
          let (same, stop) = pure-eq-ok end in
          let kept =
            laws.write-read _ (trim cached) w v
              (map_err-eq-ok (os.write _ (trim cached)) io w wrote) in
          (sym same, rw stop at kept)
    ]
