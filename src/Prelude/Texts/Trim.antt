-- ===== src/Prelude/Texts/Trim.antt =====
-- Trimming a text that does not begin, or end, with whitespace.
use mathlib.Core.List.{reverse}
use cloud_init_rs.Prelude.{ℕ, ◌≡◌, sym, ap, ◌∙◌, inl, inr, Bool, false, [], ◌∷◌, ◌++◌, Bool-cases}
use cloud_init_rs.Prelude.Texts.{Text, is_whitespace, trim_start_matches, trim_start, trim}
use mathlib.Core.List.{reverse-append, reverse-cons, reverse-reverse}

trim_start_matches-append :
    (p : ℕ → Bool) (c : ℕ) (t : Text)
    → p c ≡ false
    → (u : Text) × (trim_start_matches p (t ++ (c ∷ [])) ≡ u ++ (c ∷ []))
unfolding trim_start_matches
trim_start_matches-append p c [] h = ([], rw h)
trim_start_matches-append p c (a ∷ t) h = elim (Bool-cases (p a)) [
  | inl e ↦ rw e (trim_start_matches-append p c t h)
  | inr e ↦ (a ∷ t, rw e)
]

trim_start-eq_self : (c : ℕ) (t : Text) → is_whitespace c ≡ false → trim_start (c ∷ t) ≡ c ∷ t
unfolding trim_start trim_start_matches
trim_start-eq_self c t h = rw h

trim-cons :
    (c : ℕ) (t : Text)
    → is_whitespace c ≡ false
    → trim (c ∷ t) ≡ reverse (trim_start (reverse t ++ (c ∷ [])))
unfolding trim
trim-cons c t h =
    ap (λ (s : Text). reverse (trim_start (reverse s))) (trim_start-eq_self c t h)
    ∙ ap (λ (s : Text). reverse (trim_start s)) (reverse-cons c t)

-- A first character that is no whitespace stays first.
pub trim-eq-cons :
    (c : ℕ) (t : Text) → is_whitespace c ≡ false → (u : Text) × (trim (c ∷ t) ≡ c ∷ u)
unfolding trim_start
trim-eq-cons c t h =
    let (u, e) = trim_start_matches-append is_whitespace c (reverse t) h in
    (reverse u, trim-cons c t h ∙ ap reverse e ∙ reverse-append u (c ∷ []))

-- With a last one that is none, too, the text is left as it is.
pub trim-eq_self :
    (c d : ℕ) (t : Text)
    → is_whitespace c ≡ false
    → is_whitespace d ≡ false
    → trim (c ∷ (t ++ (d ∷ []))) ≡ c ∷ (t ++ (d ∷ []))
trim-eq_self c d t h k =
    let last : reverse (t ++ (d ∷ [])) ≡ d ∷ reverse t = reverse-append t (d ∷ []) in
    let back : reverse (c ∷ (t ++ (d ∷ []))) ≡ d ∷ (reverse t ++ (c ∷ [])) =
      reverse-cons c (t ++ (d ∷ [])) ∙ ap (λ (s : Text). s ++ (c ∷ [])) last in
    trim-cons c (t ++ (d ∷ [])) h
    ∙ ap (λ (s : Text). reverse (trim_start (s ++ (c ∷ [])))) last
    ∙ ap reverse (trim_start-eq_self d (reverse t ++ (c ∷ [])) k)
    ∙ ap reverse (sym back)
    ∙ reverse-reverse (c ∷ (t ++ (d ∷ [])))
