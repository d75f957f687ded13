-- ===== src/Config/Merge/Sequences.antt =====
-- What a merged sequence holds under the append strategy, and that it holds nothing twice.
use cloud_init_rs.Prelude.{
  ◌≡◌, refl, ◌∙◌, inl, inr, Bool, true, ◌||◌, arith, if◌then◌else◌, Bool-cases,
}
use cloud_init_rs.Config.Yaml.{Value, Items, nil, cons, push, contains}
use cloud_init_rs.Config.Yaml.Laws.{EqLaws, NoRepeat, contains-push, push-NoRepeat}
use cloud_init_rs.Config.Merge.{push_missing, merge_sequences, append_items}

module _ (eq : Value → Value → Bool) where
  -- The first sequence's items, in their order, come first in the second.
  abbrev pub Extends : Items → Items → Type 0
  Extends nil ys = Unit
  Extends (cons x xs) nil = ⊥
  Extends (cons x xs) (cons y ys) = (x ≡ y) × Extends xs ys

  Extends-self : (xs : Items) → Extends xs xs
  Extends-self nil = tt
  Extends-self (cons x xs) = (refl, Extends-self xs)

  Extends-push : (xs : Items) (x : Value) → Extends xs (push xs x)
  unfolding push
  Extends-push nil x = tt
  Extends-push (cons y xs) x = (refl, Extends-push xs x)

  Extends-trans : (xs ys zs : Items) → Extends xs ys → Extends ys zs → Extends xs zs
  Extends-trans nil ys zs p q = tt
  Extends-trans (cons x xs) nil zs p q = elim p [ ]
  Extends-trans (cons x xs) (cons y ys) nil p q = q
  Extends-trans (cons x xs) (cons y ys) (cons z zs) (e, p) (f, q) =
      (e ∙ f, Extends-trans xs ys zs p q)

  module _ (laws : EqLaws eq) where
    contains-same : (b : Items) (x y : Value) → eq x y ≡ true → contains eq b x ≡ contains eq b y
    unfolding contains
    contains-same nil x y h = refl
    contains-same (cons z b) x y h =
        ground
          (arith, contains-same b x y h, laws.eq-same x y z h, laws.eq-sym x z, laws.eq-sym y z)

    contains_step :
        (b : Items) (x y : Value)
        → contains eq (if contains eq b x then b else push b x) y ≡ contains eq b y || eq x y
    contains_step b x y = elim (Bool-cases (contains eq b x)) [
      | inl e ↦ rw e (ground (arith, contains-same b x y))
      | inr e ↦ rw e (contains-push eq laws b x y)
    ]

    contains-push_missing :
        (b o : Items) (y : Value)
        → contains eq (push_missing eq b o) y ≡ contains eq b y || contains eq o y
    unfolding push_missing contains
    contains-push_missing b nil y = ground arith
    contains-push_missing b (cons x o) y =
        rw
          (contains-push_missing (if contains eq b x then b else push b x) o y, contains_step b x y)
          (ground arith)

    push_missing-NoRepeat :
        (b o : Items) → NoRepeat eq laws b → NoRepeat eq laws (push_missing eq b o)
    unfolding push_missing
    push_missing-NoRepeat b nil n = n
    push_missing-NoRepeat b (cons x o) n = elim (Bool-cases (contains eq b x)) [
      | inl e ↦ rw e (push_missing-NoRepeat b o n)
      | inr e ↦ rw e (push_missing-NoRepeat (push b x) o (push-NoRepeat eq laws b x e n))
    ]

    push_missing-Extends : (b o : Items) → Extends b (push_missing eq b o)
    unfolding push_missing
    push_missing-Extends b nil = Extends-self b
    push_missing-Extends b (cons x o) = elim (Bool-cases (contains eq b x)) [
      | inl e ↦ rw e (push_missing-Extends b o)
      | inr e ↦ rw e (
          Extends-trans b (push b x) (push_missing eq (push b x) o) (Extends-push b x)
            (push_missing-Extends (push b x) o))
    ]

    -- For an equality that is an equivalence and a base sequence without repetitions: appending
    -- the overlay keeps the base's items in front and in order, repeats no value, and holds
    -- exactly the values of the two.
    pub merge_sequences_append :
        (b o : Items)
        → NoRepeat eq laws b
        → Extends b (merge_sequences eq append_items b o)
          × NoRepeat eq laws (merge_sequences eq append_items b o)
          × ((y : Value)
              → contains eq (merge_sequences eq append_items b o) y
                ≡ contains eq b y || contains eq o y)
    unfolding merge_sequences
    merge_sequences_append b o n =
        (push_missing-Extends b o, push_missing-NoRepeat b o n, contains-push_missing b o)
