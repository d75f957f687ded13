-- ===== src/Userdata/Slices.antt =====
-- Positions in a text as Rust counts them, in bytes of UTF-8. A slice that does not begin at a
-- character, or lies behind the end, is a panic: `none`.
pub mod Ascii
pub mod Separators
use cloud_init_rs.Prelude.{
  ℕ, zero, suc, ◌+◌, ◌-◌, Bool, true, false, Option, none, some, List, [], ◌∷◌, ltb, if◌then◌else◌,
  length,
}
use cloud_init_rs.Prelude.Texts.{Text, strip_prefix, starts_with}

-- `char::len_utf8`
width : ℕ → ℕ
width c = if ltb c 0x80 then 1 else if ltb c 0x800 then 2 else if ltb c 0x10000 then 3 else 4

-- `find` of a text: where it first begins
unfoldable pub find : Text → Text → Option ℕ
unfolding width starts_with
find p [] = if starts_with [] p then some 0 else none
find p (c ∷ t) =
    let rest = find p t in
    if starts_with (c ∷ t) p
    then some 0
    else elim rest [ none ↦ none | some i ↦ some (width c + i) ]

-- `&text[n..]`
unfoldable pub slice_from : ℕ → Text → Option Text
unfolding width
slice_from zero t = some t
slice_from (suc n) [] = none
slice_from (suc n) (c ∷ t) = if ltb (suc n) (width c) then none else slice_from (suc n - width c) t

-- `len()`
unfoldable pub byte_length : Text → ℕ
unfolding width
byte_length [] = 0
byte_length (c ∷ t) = width c + byte_length t

-- `&text[..n]`
unfoldable pub slice_to : ℕ → Text → Option Text
unfolding width
slice_to zero t = some []
slice_to (suc n) [] = none
slice_to (suc n) (c ∷ t) =
    let rest = slice_to (suc n - width c) t in
    if ltb (suc n) (width c) then none else elim rest [ none ↦ none | some u ↦ some (c ∷ u) ]

-- The characters before the first that is looked for, and what follows it.
unfoldable pub until : (ℕ → Bool) → Text → Option Text
until p [] = none
until p (c ∷ t) =
    let rest = until p t in
    if p c then some [] else elim rest [ none ↦ none | some u ↦ some (c ∷ u) ]

-- `split_once` and `find` with the slices around what was found
unfoldable pub split_once : Text → Text → Option (Text × Text)
split_once p [] = elim (strip_prefix p []) [ none ↦ none | some rest ↦ some ([], rest) ]
split_once p (c ∷ t) =
    let later = split_once p t in
    elim (strip_prefix p (c ∷ t)) [
      | some rest ↦ some ([], rest)
      | none ↦ elim later [ none ↦ none | some (u, v) ↦ some (c ∷ u, v) ]
    ]

-- `split(p)` for a separator that is not empty; the number says how much of a separator is left.
split_from : Text → ℕ → Text → List Text
unfolding starts_with
split_from p skip [] = [] ∷ []
split_from p (suc skip) (c ∷ t) = split_from p skip t
split_from p zero (c ∷ t) = elim (starts_with (c ∷ t) p) [
  | true ↦ [] ∷ split_from p (length p - 1) t
  | false ↦ elim (split_from p zero t) [ [] ↦ (c ∷ []) ∷ [] | u ∷ us ↦ (c ∷ u) ∷ us ]
]

unfoldable pub split : Text → Text → List Text
unfolding split_from
split p t = split_from p zero t
