-- ===== src/State/Paths/Laws.antt =====
-- How joined paths are told apart, and where the paths of an instance lie.
use cloud_init_rs.Prelude.{ℕ, ◌≡◌, refl, sym, ap, ◌∙◌, ◌≢◌, true, false, [], ◌∷◌, ◌++◌, arith}
use cloud_init_rs.Prelude.Texts.{Text, lit}
use mathlib.Core.List.{append_cancel_left, append_cancel_right}
use cloud_init_rs.State.Paths.{
  CloudPaths, path_join, is_absolute, ends_with_slash, instance_dir, sem_dir, instances_dir,
}

-- A directory or name behind which `join` puts a separator.
abbrev pub IsDirectory : Text → Type 0
IsDirectory b = (b ≢ []) × (ends_with_slash b ≡ false)

-- A relative path is joined behind the base and one separator.
pub path_join_relative :
    (b p : Text) → IsDirectory b → is_absolute p ≡ false → path_join b p ≡ b ++ (b'/' ∷ p)
unfolding path_join
path_join_relative [] p (ne, s) r = absurd (ne refl)
path_join_relative (a ∷ b) p (ne, s) r = ground arith

-- An absolute path replaces the base.
pub path_join_absolute : (b p : Text) → is_absolute p ≡ true → path_join b p ≡ p
unfolding path_join
path_join_absolute [] p r = refl
path_join_absolute (a ∷ b) p r = ground arith

ends_with_slash-append :
    (s : Text) (a : ℕ) (t : Text) → ends_with_slash (s ++ (a ∷ t)) ≡ ends_with_slash (a ∷ t)
unfolding ends_with_slash
ends_with_slash-append [] a t = refl
ends_with_slash-append (b ∷ []) a t = refl
ends_with_slash-append (b ∷ c ∷ s) a t = ends_with_slash-append (c ∷ s) a t

append-ne-nil : (s : Text) (a : ℕ) (t : Text) → s ++ (a ∷ t) ≢ []
append-ne-nil [] a t = cc
append-ne-nil (b ∷ s) a t = cc

-- What is joined behind a separator is a directory again.
pub IsDirectory-append : (s t : Text) → IsDirectory t → IsDirectory (s ++ (b'/' ∷ t))
unfolding ends_with_slash
IsDirectory-append s [] (ne, e) = absurd (ne refl)
IsDirectory-append s (a ∷ t) (ne, e) = (append-ne-nil s b'/' (a ∷ t), rw ends_with_slash-append e)

-- The name of an instance: it is joined under the directory of instances.
abbrev pub IsId : Text → Type 0
IsId id = IsDirectory id × (is_absolute id ≡ false)

module _ (paths : CloudPaths) (base : IsDirectory paths.base) where
  pub instances_dir_lem : instances_dir paths ≡ paths.base ++ (b'/' ∷ lit "instances")
  unfolding instances_dir is_absolute lit
  instances_dir_lem = path_join_relative paths.base (lit "instances") base refl

  instances_dir-IsDirectory : IsDirectory (instances_dir paths)
  unfolding lit ends_with_slash
  instances_dir-IsDirectory =
      rw instances_dir_lem (IsDirectory-append paths.base (lit "instances") (cc, refl))

  instance_dir_lem :
      (id : Text) → IsId id → instance_dir paths id ≡ instances_dir paths ++ (b'/' ∷ id)
  unfolding instance_dir
  instance_dir_lem id (d, r) =
      path_join_relative (instances_dir paths) id instances_dir-IsDirectory r

  pub sem_dir_lem :
      (id : Text)
      → IsId id
      → sem_dir paths id ≡ (instances_dir paths ++ (b'/' ∷ id)) ++ (b'/' ∷ lit "sem")
  unfolding sem_dir is_absolute lit
  sem_dir_lem id (d, r) =
      ap (λ t. path_join t (lit "sem")) (instance_dir_lem id (d, r))
      ∙ path_join_relative _ (lit "sem") (IsDirectory-append (instances_dir paths) id d) refl

  pub sem_dir-IsDirectory : (id : Text) → IsId id → IsDirectory (sem_dir paths id)
  unfolding lit ends_with_slash
  sem_dir-IsDirectory id h = rw (sem_dir_lem id h) (IsDirectory-append _ (lit "sem") (cc, refl))

  -- Two instances have two semaphore directories.
  pub sem_dir_injective :
      (id id' : Text) → IsId id → IsId id' → sem_dir paths id ≡ sem_dir paths id' → id ≡ id'
  sem_dir_injective id id' h h' e =
      let dir = instances_dir paths in
      let suffix : Text = b'/' ∷ lit "sem" in
      let whole : (dir ++ (b'/' ∷ id)) ++ suffix ≡ (dir ++ (b'/' ∷ id')) ++ suffix =
        sym (sem_dir_lem id h) ∙ (e ∙ sem_dir_lem id' h') in
      let front : b'/' ∷ id ≡ b'/' ∷ id' =
        append_cancel_left dir _ _ (append_cancel_right _ _ suffix whole) in
      cc
