-- ===== src/Prelude/Texts/Lines.antt =====
-- The lines of a text that ends them with a carriage return and a newline.
use cloud_init_rs.Prelude.{
  ℕ, ◌≡◌, refl, ap, inl, inr, false, List, [], ◌∷◌, ◌++◌, append_assoc, arith, eqb, Bool-cases,
}
use cloud_init_rs.Prelude.Texts.{Text, split_char, contains_char, lines, strip_cr, end_lines}

split_char-eq-cons : (c : ℕ) (t : Text) → (p : Text) × (ps : List Text) × (split_char c t ≡ p ∷ ps)
unfolding split_char
split_char-eq-cons c [] = ([], [], refl)
split_char-eq-cons c (a ∷ t) =
    let (p, ps, e) = split_char-eq-cons c t in
    elim (Bool-cases (eqb a c)) [
      | inl same ↦ ([], split_char c t, rw (same, split_char))
      | inr other ↦ (a ∷ p, ps, rw (other, e, split_char))
    ]

split_char-append :
    (c : ℕ) (u v : Text)
    → contains_char u c ≡ false
    → split_char c (u ++ (c ∷ v)) ≡ u ∷ split_char c v
unfolding split_char contains_char
split_char-append c [] v h = ground arith
split_char-append c (a ∷ u) v h = ground (arith, split_char-append c u v)

split_char-eq-one : (c : ℕ) (u : Text) → contains_char u c ≡ false → split_char c u ≡ u ∷ []
unfolding split_char contains_char
split_char-eq-one c [] h = refl
split_char-eq-one c (a ∷ u) h = ground (arith, split_char-eq-one c u)

strip_cr-append : (u : Text) → strip_cr (u ++ (13 ∷ [])) ≡ u
unfolding strip_cr
strip_cr-append [] = refl
strip_cr-append (a ∷ []) = refl
strip_cr-append (a ∷ b ∷ u) = ap (λ t. a ∷ t) (strip_cr-append (b ∷ u))

pub contains_char-concat :
    (c d : ℕ) (u : Text)
    → contains_char u c ≡ false
    → eqb d c ≡ false
    → contains_char (u ++ (d ∷ [])) c ≡ false
unfolding contains_char
contains_char-concat c d [] h k = ground arith
contains_char-concat c d (a ∷ u) h k = ground (arith, contains_char-concat c d u)

pub lines-append :
    (u v : Text) → contains_char u 10 ≡ false → lines (u ++ (13 ∷ (10 ∷ v))) ≡ u ∷ lines v
unfolding lines end_lines
lines-append u v h =
    let (p, ps, e) = split_char-eq-cons 10 v in
    let split : split_char 10 (u ++ (13 ∷ (10 ∷ v))) ≡ (u ++ (13 ∷ [])) ∷ split_char 10 v =
      rw append_assoc at
        (split_char-append 10 (u ++ (13 ∷ [])) v (contains_char-concat 10 13 u h refl)) in
    rw (split, e, strip_cr-append u) refl

pub lines_one : (a : ℕ) (u : Text) → contains_char (a ∷ u) 10 ≡ false → lines (a ∷ u) ≡ (a ∷ u) ∷ []
unfolding lines end_lines
lines_one a u h = rw (split_char-eq-one 10 (a ∷ u) h) refl
