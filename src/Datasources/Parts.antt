-- ===== src/Datasources/Parts.antt =====
-- The parts of a text around the last place of a character: `rsplit(c).next()` and `rfind(c)` with
-- the slice before it.
use cloud_init_rs.Prelude.{
  ℕ, ◌≡◌, refl, true, false, Option, none, some, [], ◌∷◌, ◌++◌, arith, eqb, if◌then◌else◌,
}
use cloud_init_rs.Prelude.Texts.{Text, contains_char}

unfoldable pub before_last : ℕ → Text → Option Text
before_last c [] = none
before_last c (a ∷ t) =
    let rest = before_last c t in
    elim rest [ some u ↦ some (a ∷ u) | none ↦ if eqb a c then some [] else none ]

unfoldable pub after_last : ℕ → Text → Text
unfolding contains_char
after_last c [] = []
after_last c (a ∷ t) =
    let rest = after_last c t in if contains_char t c then rest else if eqb a c then t else a ∷ t

pub before_last-none : (c : ℕ) (t : Text) → contains_char t c ≡ false → before_last c t ≡ none
unfolding before_last contains_char
before_last-none c [] h = refl
before_last-none c (a ∷ t) h =
    let other : eqb a c ≡ false = ground arith in
    rw (before_last-none c t (ground arith), other) refl

pub before_last-append :
    (c : ℕ) (s t : Text) → contains_char t c ≡ false → before_last c (s ++ c ∷ t) ≡ some s
unfolding before_last
before_last-append c [] t h =
    let same : eqb c c ≡ true = ground arith in rw (before_last-none c t h, same) refl
before_last-append c (a ∷ s) t h = rw (before_last-append c s t h) refl

contains_char-append : (c : ℕ) (s t : Text) → contains_char (s ++ c ∷ t) c ≡ true
unfolding contains_char
contains_char-append c [] t = ground arith
contains_char-append c (a ∷ s) t = ground (arith, contains_char-append c s t)

pub after_last-append :
    (c : ℕ) (s t : Text) → contains_char t c ≡ false → after_last c (s ++ c ∷ t) ≡ t
unfolding after_last
after_last-append c [] t h = let same : eqb c c ≡ true = ground arith in rw (h, same) refl
after_last-append c (a ∷ s) t h = rw (contains_char-append c s t) (after_last-append c s t h)
