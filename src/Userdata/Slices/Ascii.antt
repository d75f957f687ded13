-- ===== src/Userdata/Slices/Ascii.antt =====
-- In ASCII text every position is one of a character.
use cloud_init_rs.Prelude.Texts.{to_lowercase}
use cloud_init_rs.Prelude.{
  ℕ, zero, suc, ◌+◌, ◌-◌, ◌≤◌, ◌<◌, ◌≡◌, refl, inl, inr, true, false, ◌&&◌, some, [], ◌∷◌, arith,
  ltb, leb, Bool-cases, Option-cases, length, All,
}
use cloud_init_rs.Prelude.Texts.{Text, strip_prefix, starts_with}
use cloud_init_rs.Userdata.Slices.{find, slice_from, slice_to, byte_length, width}

-- Every character is one byte.
abbrev pub IsAsciiText : Text → Type 0
IsAsciiText = All (λ c. c < 128)

width-ascii : (c : ℕ) → c < 128 → width c ≡ 1
unfolding width
width-ascii c h = ground arith

strip_prefix-length : (p t rest : Text) → strip_prefix p t ≡ some rest → length p ≤ length t
unfolding strip_prefix
strip_prefix-length [] t rest h = omega arith
strip_prefix-length (a ∷ p) [] rest h = cc
strip_prefix-length (a ∷ p) (b ∷ t) rest h = ground (arith, strip_prefix-length p t rest)

pub starts_with-length : (t p : Text) → starts_with t p ≡ true → length p ≤ length t
unfolding starts_with
starts_with-length t p h = elim (Option-cases (strip_prefix p t)) [
  | inl e ↦ absurd (cc (rw e at h))
  | inr (rest, e) ↦ strip_prefix-length p t rest e
]

-- What was found ends inside the text.
pub find-length : (p t : Text) (i : ℕ) → IsAsciiText t → find p t ≡ some i → i + length p ≤ length t
unfolding find
find-length p [] i a h = elim (Bool-cases (starts_with [] p)) [
  | inl e ↦ ground (arith, starts_with-length [] p e)
  | inr e ↦ cc (rw e at h)
]
find-length p (c ∷ t) i (small, a) h = elim (Bool-cases (starts_with (c ∷ t) p)) [
  | inl e ↦ ground (arith, starts_with-length (c ∷ t) p e)
  | inr e ↦ elim (Option-cases (find p t)) [
    | inl f ↦ cc (rw (e, f) at h)
    | inr (j, f) ↦ ground (arith, find-length p t j a f, width-ascii c small)
  ]
]

pub slice_from-ascii :
    (n : ℕ) (t : Text) → IsAsciiText t → n ≤ length t → (rest : Text) × (slice_from n t ≡ some rest)
unfolding slice_from
slice_from-ascii zero t a h = (t, refl)
slice_from-ascii (suc n) [] a h = absurd (omega arith)
slice_from-ascii (suc n) (c ∷ t) (small, a) h =
    let (rest, e) = slice_from-ascii n t a (omega arith) in
    let enough : ltb (suc n) 1 ≡ false = ground arith in
    let back : suc n - 1 ≡ n = omega arith in (rest, rw (width-ascii c small, enough, back) e)

-- Lower case keeps ASCII text as long as it is, and ASCII.
pub to_lowercase-ascii :
    (fold : ℕ → Text) (t : Text)
    → IsAsciiText t
    → (length (to_lowercase fold t) ≡ length t) × IsAsciiText (to_lowercase fold t)
unfolding to_lowercase
to_lowercase-ascii fold [] a = (refl, tt)
to_lowercase-ascii fold (c ∷ t) (small, a) =
    let (same, plain) = to_lowercase-ascii fold t a in
    elim (Bool-cases (leb b'A' c && leb c b'Z')) [
      | inl e ↦ rw e (omega (arith, same), (ground arith, plain))
      | inr e ↦ elim (Bool-cases (ltb c 128)) [
        | inl f ↦ rw (e, f) (omega (arith, same), (small, plain))
        | inr f ↦ absurd (ground arith)
      ]
    ]

unfoldable pub drop_last : Text → Text
drop_last [] = []
drop_last (c ∷ []) = []
drop_last (c ∷ d ∷ t) = c ∷ drop_last (d ∷ t)

pub byte_length-ascii : (t : Text) → IsAsciiText t → byte_length t ≡ length t
unfolding byte_length
byte_length-ascii [] a = refl
byte_length-ascii (c ∷ t) (small, a) = omega (arith, width-ascii c small, byte_length-ascii t a)

slice_to-length :
    (c : ℕ) (t : Text)
    → IsAsciiText (c ∷ t)
    → slice_to (length t) (c ∷ t) ≡ some (drop_last (c ∷ t))
unfolding slice_to drop_last
slice_to-length c [] a = refl
slice_to-length c (d ∷ t) (small, a) =
    let enough : ltb (suc (length t)) 1 ≡ false = ground arith in
    let back : suc (length t) - 1 ≡ length t = omega arith in
    rw (width-ascii c small, enough, back, slice_to-length d t a) refl

-- Cutting off the last byte is cutting off the last character.
pub slice_to-ascii :
    (t : Text) → 0 < length t → IsAsciiText t → slice_to (length t - 1) t ≡ some (drop_last t)
slice_to-ascii [] h a = absurd (omega arith)
slice_to-ascii (c ∷ t) h a =
    let back : length (c ∷ t) - 1 ≡ length t = omega arith in rw back (slice_to-length c t a)
