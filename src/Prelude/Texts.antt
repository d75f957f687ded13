-- ===== src/Prelude/Texts.antt =====
-- Text as the list of its Unicode scalar values, with the operations of Rust's `str` that the
-- program uses.
pub mod Lines
pub mod Trim
pub mod Decimal
use mathlib.Core.Logic.{◌≢◌}
use Prim.Native.Char.{code}
use Prim.Native.String.{String}
use Prim.Native.Nat.{ℕ, zero, suc, ◌+◌, ◌/◌, ◌%◌}
use mathlib.Core.Path.{◌≡◌, refl, ap}
use mathlib.Core.Logic.{◌↔◌}
use mathlib.Core.Bool.{Bool, true, false, not, ◌&&◌, ◌||◌}
use mathlib.Core.Option.{Option, none, some}
use mathlib.Core.List.{List, [], ◌∷◌, ◌++◌, reverse}
use native.Mathlib.Omega.{arith}
use cloud_init_rs.Prelude.Tests.{ltb, leb, eqb, if◌then◌else◌}
use cloud_init_rs.Prelude.Lists.{is_some, is_empty, keep}

abbrev pub Text : Type 0
Text = List ℕ

-- A text literal.
unfoldable pub lit : String → Text
lit String.[] = []
lit (String.◌∷◌ c s) = code c ∷ lit s

infix 50 ◌==◌
unfoldable pub ◌==◌ : Text → Text → Bool
[] == [] = true
[] == (b ∷ t) = false
(a ∷ s) == [] = false
(a ∷ s) == (b ∷ t) = eqb a b && s == t

eq_of_== : (s t : Text) → (s == t) ≡ true → s ≡ t
unfolding ◌==◌
eq_of_== [] [] h = refl
eq_of_== [] (b ∷ t) h = cc
eq_of_== (a ∷ s) [] h = cc
eq_of_== (a ∷ s) (b ∷ t) h = ground (arith, eq_of_== s t)

pub ==-refl : (s : Text) → (s == s) ≡ true
unfolding ◌==◌
==-refl [] = refl
==-refl (a ∷ s) = ground (arith, ==-refl s)

pub ==_iff : (s t : Text) → ((s == t) ≡ true) ↔ (s ≡ t)
==_iff s t = (eq_of_== s t, λ e. cc (==-refl s, ap (λ u. s == u) e))

-- `strip_prefix`
unfoldable pub strip_prefix : Text → Text → Option Text
strip_prefix [] t = some t
strip_prefix (a ∷ p) [] = none
strip_prefix (a ∷ p) (b ∷ t) = if eqb a b then strip_prefix p t else none

unfoldable pub starts_with : Text → Text → Bool
unfolding strip_prefix
starts_with t p = is_some (strip_prefix p t)

-- `contains` of a text
unfoldable pub contains : Text → Text → Bool
unfolding starts_with
contains [] p = starts_with [] p
contains (a ∷ t) p = starts_with (a ∷ t) p || contains t p

-- `contains` of a character
unfoldable pub contains_char : Text → ℕ → Bool
contains_char [] c = false
contains_char (a ∷ t) c = eqb a c || contains_char t c

-- `char::is_whitespace`: the Unicode property White_Space.
unfoldable pub is_whitespace : ℕ → Bool
is_whitespace c =
    (leb 0x9 c && leb c 0xd)
    || eqb c 0x20
    || eqb c 0x85
    || eqb c 0xa0
    || eqb c 0x1680
    || (leb 0x2000 c && leb c 0x200a)
    || eqb c 0x2028
    || eqb c 0x2029
    || eqb c 0x202f
    || eqb c 0x205f
    || eqb c 0x3000

unfoldable pub trim_start_matches : (ℕ → Bool) → Text → Text
trim_start_matches p [] = []
trim_start_matches p (a ∷ t) = let rest = trim_start_matches p t in if p a then rest else a ∷ t

unfoldable pub trim_start : Text → Text
unfolding trim_start_matches is_whitespace
trim_start = trim_start_matches is_whitespace

unfoldable pub trim : Text → Text
unfolding trim_start
trim t = reverse (trim_start (reverse (trim_start t)))

-- `split(c)`: the parts between the separators, at least one.
unfoldable pub split_char : ℕ → Text → List Text
split_char c [] = [] ∷ []
split_char c (a ∷ t) = elim (eqb a c) [
  | true ↦ [] ∷ split_char c t
  | false ↦ elim (split_char c t) [ [] ↦ (a ∷ []) ∷ [] | p ∷ ps ↦ (a ∷ p) ∷ ps ]
]

-- `split_whitespace`: the parts between whitespace that are not empty.
split_where : (ℕ → Bool) → Text → List Text
split_where p [] = [] ∷ []
split_where p (a ∷ t) = elim (p a) [
  | true ↦ [] ∷ split_where p t
  | false ↦ elim (split_where p t) [ [] ↦ (a ∷ []) ∷ [] | w ∷ ws ↦ (a ∷ w) ∷ ws ]
]

unfoldable pub split_whitespace : Text → List Text
unfolding split_where is_whitespace
split_whitespace t = keep (λ w. not (is_empty w)) (split_where is_whitespace t)

strip_cr : Text → Text
strip_cr [] = []
strip_cr (a ∷ []) = if eqb a 13 then [] else a ∷ []
strip_cr (a ∷ b ∷ t) = a ∷ strip_cr (b ∷ t)

-- `lines`: a line ends with a newline and may have a carriage return before it.
end_lines : List Text → List Text
unfolding strip_cr
end_lines [] = []
end_lines (l ∷ []) = if is_empty l then [] else l ∷ []
end_lines (l ∷ m ∷ ls) = strip_cr l ∷ end_lines (m ∷ ls)

unfoldable pub lines : Text → List Text
unfolding end_lines split_char
lines t = end_lines (split_char 10 t)

-- `join`
unfoldable pub join : Text → List Text → Text
join sep [] = []
join sep (t ∷ []) = t
join sep (t ∷ u ∷ ts) = t ++ (sep ++ join sep (u ∷ ts))

-- The decimal digits of a number. The fuel is above the number, so it is enough.
decimal_from : ℕ → ℕ → Text → Text
decimal_from zero n acc = acc
decimal_from (suc f) n acc =
    let digit = 48 + n % 10 in
    let more = decimal_from f (n / 10) (digit ∷ acc) in if ltb n 10 then digit ∷ acc else more

unfoldable pub decimal : ℕ → Text
unfolding decimal_from
decimal n = decimal_from (suc n) n []

-- `to_lowercase`, character by character. The mapping of a character beyond ASCII is a table of
-- Unicode, `fold`. Rust has one rule that looks at a character's neighbours, for the Greek capital
-- sigma at the end of a word: it is not modelled.
unfoldable pub to_lowercase : (ℕ → Text) → Text → Text
to_lowercase fold [] = []
to_lowercase fold (c ∷ t) =
    let rest = to_lowercase fold t in
    if leb b'A' c && leb c b'Z'
    then (c + 32) ∷ rest
    else if ltb c 128
    then c ∷ rest
    else fold c ++ rest

-- The text that `writeln!` writes, line by line.
unfoldable pub written : List Text → Text
written [] = []
written (l ∷ ls) = l ++ (10 ∷ written ls)

-- Texts that compare as different are different.
pub ==-ne : (s t : Text) → (s == t) ≡ false → s ≢ t
==-ne s t h e = ground (arith, ==_iff s t)
