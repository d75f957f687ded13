-- ===== src/Config/Yaml/Laws.antt =====
-- The laws of a mapping, and of a list without repetitions.
use cloud_init_rs.Prelude.{◌≡◌, refl, Bool, true, false, ◌||◌, some, arith, if◌then◌else◌}
use cloud_init_rs.Config.Yaml.{
  Value, Items, nil, cons, Fields, end, field, push, contains, get, insert,
}

-- `Eq`: an equivalence.
pub record EqLaws (eq : Value → Value → Bool) : Type 0 where
  pub eq-refl : (a : Value) → eq a a ≡ true
  pub eq-sym : (a b : Value) → eq a b ≡ eq b a
  pub eq-same : (a b c : Value) → eq a b ≡ true → eq a c ≡ eq b c

module _ (eq : Value → Value → Bool) (laws : EqLaws eq) where
  pub get-insert :
      (k j v : Value) (m : Fields)
      → get eq j (insert eq k v m) ≡ (if eq k j then some v else get eq j m)
  unfolding get insert
  get-insert k j v end = refl
  get-insert k j v (field i u m) = ground (
    arith,
    get-insert k j v m,
    laws.eq-same i k j,
    laws.eq-same i j k,
    laws.eq-same k j k,
    laws.eq-refl k,
    laws.eq-sym i k,
  )

  -- Equal keys find the same value.
  pub get-same : (k j : Value) (m : Fields) → eq k j ≡ true → get eq k m ≡ get eq j m
  unfolding get
  get-same k j end h = refl
  get-same k j (field i u m) h =
      ground (arith, get-same k j m h, laws.eq-same k j i h, laws.eq-sym i k, laws.eq-sym i j)

  -- A list without repetitions.
  abbrev pub NoRepeat : Items → Type 0
  NoRepeat nil = Unit
  NoRepeat (cons x xs) = (contains eq xs x ≡ false) × NoRepeat xs

  pub contains-push :
      (xs : Items) (x y : Value) → contains eq (push xs x) y ≡ contains eq xs y || eq x y
  unfolding contains push
  contains-push nil x y = ground arith
  contains-push (cons z zs) x y = ground (arith, contains-push zs x y)

  pub push-NoRepeat :
      (xs : Items) (x : Value) → contains eq xs x ≡ false → NoRepeat xs → NoRepeat (push xs x)
  unfolding contains push
  push-NoRepeat nil x h n = (refl, tt)
  push-NoRepeat (cons y ys) x h (new, n) =
      (ground (arith, contains-push ys x y, laws.eq-sym x y), push-NoRepeat ys x (ground arith) n)
