-- ===== src/State/Semaphore/Refinement.antt =====
-- The semaphores as a set of modules that are done, for the instance and once.
pub mod MarkerPaths
mod Tests
use cloud_init_rs.Prelude.{
  ◌≡◌, refl, ap, ◌∙◌, subst, ◌≢◌, inl, inr, Bool, true, false, not, ◌&&◌, some, List, [], ◌∷◌, ◌++◌,
  arith, if◌then◌else◌, Bool-cases, All,
}
use cloud_init_rs.Prelude.Texts.{Text, lit, ◌==◌, ==_iff}
use cloud_init_rs.Result.{Result, ok, Error, Exec, for_each}
use cloud_init_rs.Result.{io}
use cloud_init_rs.Result.Steps.{map_err-eq-ok, bind-eq-ok}
use cloud_init_rs.Os.{Os}
use cloud_init_rs.Os.Laws.{WriteLaws, RemoveLaws, MkdirLaws}
use cloud_init_rs.State.Paths.{path_join, path_parent}
use cloud_init_rs.State.Semaphore.{
  Frequency, per_boot, per_instance, per_once, always, SemaphoreManager, sem_path, should_run,
  mark_done, clear, write_marker, clear_marker,
}
use cloud_init_rs.State.Semaphore.Once.{write_marker-eq-ok, clear_marker-gone}
use cloud_init_rs.State.Semaphore.Isolation.{write_marker-exists_ne}

pub data Scope : Type 0 where
  instance_scope once_scope : Scope

pub same_scope : Scope → Scope → Bool
same_scope instance_scope instance_scope = true
same_scope once_scope once_scope = true
same_scope s t = false

same_scope_eq : (s t : Scope) → same_scope s t ≡ true → s ≡ t
unfolding same_scope
same_scope_eq instance_scope instance_scope h = refl
same_scope_eq once_scope once_scope h = refl
same_scope_eq instance_scope once_scope h = cc
same_scope_eq once_scope instance_scope h = cc

same_scope_refl : (s : Scope) → same_scope s s ≡ true
unfolding same_scope
same_scope_refl instance_scope = refl
same_scope_refl once_scope = refl

-- The abstract state, and its two operations.
abbrev pub Done : Type 0
Done = Scope → Text → Bool

pub put : Scope → Text → Bool → Done → Done
unfolding same_scope
put s n b d t k = if same_scope s t && n == k then b else d t k

pub put_at : Frequency → Text → Bool → Done → Done
unfolding put
put_at per_boot n b d = d
put_at always n b d = d
put_at per_instance n b d = put instance_scope n b d
put_at per_once n b d = put once_scope n b d

-- Whether a module runs.
pub runs : Frequency → Text → Done → Bool
runs per_boot n d = true
runs always n d = true
runs per_instance n d = not (d instance_scope n)
runs per_once n d = not (d once_scope n)

-- A call of `mark_done`, or of `clear`.
pub data Operation : Type 0 where
  mark erase : Text → Frequency → Operation

pub abstract_run : List Operation → Done → Done
unfolding put_at
abstract_run [] d = d
abstract_run (mark n f ∷ ops) d = abstract_run ops (put_at f n true d)
abstract_run (erase n f ∷ ops) d = abstract_run ops (put_at f n false d)

pub perform : (os : Os) → SemaphoreManager → Operation → Exec os.World (Unit {0})
unfolding mark_done clear
perform os m (mark n f) = mark_done os m n f
perform os m (erase n f) = clear os m n f

-- The marker of a module, and the directory of the markers.
pub marker : SemaphoreManager → Scope → Text → Text
marker m instance_scope n = path_join m.sem_dir (lit "config_" ++ n)
marker m once_scope n = path_join m.data_dir (lit "sem/config_" ++ n)

pub directory : SemaphoreManager → Scope → Text
directory m instance_scope = m.sem_dir
directory m once_scope = path_join m.data_dir (lit "sem")

-- A name whose markers stand in these directories themselves.
abbrev pub IsName : SemaphoreManager → Text → Type 0
IsName m n = (s : Scope) → path_parent (marker m s n) ≡ some (directory m s)

abbrev pub name_of : Operation → Text
name_of (mark n f) = n
name_of (erase n f) = n

-- The paths of the markers tell the modules apart, and none is a directory of markers.
pub record Layout (m : SemaphoreManager) : Type 0 where
  pub marker_injective :
      (s t : Scope) (n k : Text) → marker m s n ≡ marker m t k → (s ≡ t) × (n ≡ k)
  pub marker-ne-directory : (s t : Scope) (n : Text) → marker m s n ≢ directory m t

-- The markers are those of the modules that are done, and their directories are there.
pub record Represents (os : Os) (m : SemaphoreManager) (d : Done) (w : os.World) : Type 0 where
  pub markers : (s : Scope) (n : Text) → os.exists (marker m s n) w ≡ d s n
  pub directories : (s : Scope) → os.exists (directory m s) w ≡ true

module _ (os : Os) (writes : WriteLaws os) (removes : RemoveLaws os) (mkdirs : MkdirLaws os)
    (m : SemaphoreManager) (layout : Layout m) where
  other_marker :
      (s t : Scope) (n k : Text) → (same_scope s t && n == k) ≡ false → marker m s n ≢ marker m t k
  other_marker s t n k h e =
      let (scopes, names) = layout.marker_injective s t n k e in
      let one : same_scope s t ≡ true = rw (← scopes) (same_scope_refl s) in
      let two : (n == k) ≡ true = (==_iff n k).1 names in absurd (ground (arith, one, two))

  -- An operation on one marker's file is one on the set.
  update-Represents :
      (s : Scope) (n : Text) (b : Bool) (d : Done) (w w' : os.World)
      → os.exists (marker m s n) w' ≡ b
      → ((q : Text) → marker m s n ≢ q → os.exists q w' ≡ os.exists q w)
      → Represents os m d w
      → Represents os m (put s n b d) w'
  unfolding put
  update-Represents s n b d w w' here others r = record {
    markers = λ t k. elim (Bool-cases (same_scope s t && n == k)) [
      | inl both ↦
          let scopes : s ≡ t = same_scope_eq s t (ground arith) in
          let names : n ≡ k = (==_iff n k).0 (ground arith) in
          let moved : os.exists (marker m t k) w' ≡ b =
            subst (λ x. os.exists (marker m x k) w' ≡ b) scopes
              (subst (λ x. os.exists (marker m s x) w' ≡ b) names here) in
          rw both moved
      | inr apart ↦ rw apart (others (marker m t k) (other_marker s t n k apart) ∙ r.markers t k)
    ];
    directories = λ t. others (directory m t) (layout.marker-ne-directory s t n) ∙ r.directories t;
  }

  write_marker-Represents :
      (s : Scope) (n : Text) (d : Done) (w w' : os.World)
      → IsName m n
      → Represents os m d w
      → write_marker os (marker m s n) w ≡ (ok tt, w')
      → Represents os m (put s n true d) w'
  write_marker-Represents s n d w w' name r h =
      let (stamp, v, made, wrote) = write_marker-eq-ok os (marker m s n) w w' h in
      let parent : (e : Text) → path_parent (marker m s n) ≡ some e → os.exists e w ≡ true = λ e p.
        let same : directory m s ≡ e = cc (name s, p) in
        subst (λ x. os.exists x w ≡ true) same (r.directories s) in
      update-Represents s n true d w w' (writes.write-exists (marker m s n) stamp v w' wrote)
        (λ q ne. write_marker-exists_ne os mkdirs writes (marker m s n) q w w' parent ne h) r

  clear_marker-exists_ne :
      (p q : Text) (w w' : os.World)
      → p ≢ q
      → clear_marker os p w ≡ (ok tt, w')
      → os.exists q w' ≡ os.exists q w
  unfolding clear_marker
  clear_marker-exists_ne p q w w' ne h = elim (Bool-cases (os.exists p w)) [
    | inl there ↦
        removes.remove-exists_ne p q w w' (map_err-eq-ok (os.remove_file p) io w (rw there at h)) ne
    | inr gone ↦
        let same : w ≡ w' = ap (λ (r : Result (Unit {0}) Error × os.World). r.1) (rw gone at h) in
        rw (← same) refl
  ]

  clear_marker-Represents :
      (s : Scope) (n : Text) (d : Done) (w w' : os.World)
      → Represents os m d w
      → clear_marker os (marker m s n) w ≡ (ok tt, w')
      → Represents os m (put s n false d) w'
  clear_marker-Represents s n d w w' r h =
      update-Represents s n false d w w' (clear_marker-gone os removes (marker m s n) w w' h)
        (λ q ne. clear_marker-exists_ne (marker m s n) q w w' ne h) r

  after_nothing :
      (d : Done) (w w' : os.World)
      → Represents os m d w
      → ◌≡◌ {A = Result (Unit {0}) Error × os.World} (ok tt, w) (ok tt, w')
      → Represents os m d w'
  after_nothing d w w' r h =
      subst (Represents os m d) (ap (λ (x : Result (Unit {0}) Error × os.World). x.1) h) r

  mark_done-Represents :
      (f : Frequency) (n : Text) (d : Done) (w w' : os.World)
      → IsName m n
      → Represents os m d w
      → mark_done os m n f w ≡ (ok tt, w')
      → Represents os m (put_at f n true d) w'
  unfolding mark_done sem_path put_at marker
  mark_done-Represents per_boot n d w w' name r h = after_nothing d w w' r h
  mark_done-Represents always n d w w' name r h = after_nothing d w w' r h
  mark_done-Represents per_instance n d w w' name r h =
      write_marker-Represents instance_scope n d w w' name r h
  mark_done-Represents per_once n d w w' name r h =
      write_marker-Represents once_scope n d w w' name r h

  clear-Represents :
      (f : Frequency) (n : Text) (d : Done) (w w' : os.World)
      → Represents os m d w
      → clear os m n f w ≡ (ok tt, w')
      → Represents os m (put_at f n false d) w'
  unfolding clear sem_path put_at marker
  clear-Represents per_boot n d w w' r h = after_nothing d w w' r h
  clear-Represents always n d w w' r h = after_nothing d w w' r h
  clear-Represents per_instance n d w w' r h = clear_marker-Represents instance_scope n d w w' r h
  clear-Represents per_once n d w w' r h = clear_marker-Represents once_scope n d w w' r h

  pub for_each-Represents :
      (ops : List Operation) (d : Done) (w w' : os.World)
      → All (λ op. IsName m (name_of op)) ops
      → Represents os m d w
      → for_each (perform os m) ops w ≡ (ok tt, w')
      → Represents os m (abstract_run ops d) w'
  unfolding for_each perform abstract_run
  for_each-Represents [] d w w' names r h = after_nothing d w w' r h
  for_each-Represents (mark n f ∷ ops) d w w' (name, names) r h =
      let (u, v, done, rest) =
        bind-eq-ok (mark_done os m n f) (λ _. for_each (perform os m) ops) w h in
      for_each-Represents ops (put_at f n true d) v w' names
        (mark_done-Represents f n d w v name r done) rest
  for_each-Represents (erase n f ∷ ops) d w w' (name, names) r h =
      let (u, v, done, rest) = bind-eq-ok (clear os m n f) (λ _. for_each (perform os m) ops) w h in
      for_each-Represents ops (put_at f n false d) v w' names (clear-Represents f n d w v r done)
        rest

  pub should_run-runs :
      (f : Frequency) (n : Text) (d : Done) (w : os.World)
      → Represents os m d w
      → should_run os m n f w ≡ (ok (runs f n d), w)
  unfolding should_run sem_path runs marker
  should_run-runs per_boot n d w r = refl
  should_run-runs always n d w r = refl
  should_run-runs per_instance n d w r = rw (r.markers instance_scope n) refl
  should_run-runs per_once n d w r = rw (r.markers once_scope n) refl
