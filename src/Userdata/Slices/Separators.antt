-- ===== src/Userdata/Slices/Separators.antt =====
-- Where a separator begins in a text, and the parts between the separators.
use cloud_init_rs.Prelude.{
  ℕ, ◌<◌, ◌≡◌, refl, ap, ◌∙◌, inl, inr, true, false, Option, none, some, [], ◌∷◌, ◌++◌, append-nil,
  arith, eqb, Option-cases, length,
}
use cloud_init_rs.Prelude.Texts.{Text, strip_prefix, starts_with, contains, contains_char}
use cloud_init_rs.Userdata.Slices.{split, split_from, split_once, until}
use cloud_init_rs.Userdata.Slices.Ascii.{starts_with-length}

-- A character that the separator lacks ends every match.
starts_with-append_stop :
    (c : ℕ) (p u v : Text)
    → contains_char p c ≡ false
    → starts_with (u ++ (c ∷ v)) p ≡ starts_with u p
unfolding starts_with strip_prefix contains_char
starts_with-append_stop c [] u v h = refl
starts_with-append_stop c (a ∷ p) [] v h = ground arith
starts_with-append_stop c (a ∷ p) (b ∷ u) v h = ground (arith, starts_with-append_stop c p u v)

-- So the separator begins on one side of it or on the other.
pub contains-append_stop :
    (c : ℕ) (p u v : Text)
    → 0 < length p
    → contains_char p c ≡ false
    → contains u p ≡ false
    → contains v p ≡ false
    → contains (u ++ (c ∷ v)) p ≡ false
unfolding contains
contains-append_stop c p [] v some_p h hu hv = ground (arith, starts_with-append_stop c p [] v h)
contains-append_stop c p (d ∷ u) v some_p h hu hv =
    ground (arith, starts_with-append_stop c p (d ∷ u) v h, contains-append_stop c p u v some_p h)

pub contains_short : (t p : Text) → length t < length p → contains t p ≡ false
unfolding contains
contains_short [] p h = ground (arith, starts_with-length [] p)
contains_short (c ∷ t) p h = ground (arith, starts_with-length (c ∷ t) p, contains_short t p)

starts_with-append : (p v : Text) → starts_with (p ++ v) p ≡ true
unfolding starts_with strip_prefix
starts_with-append [] v = refl
starts_with-append (a ∷ p) v = ground (arith, starts_with-append p v)

-- `until` gives what stands before the first of a character.
pub until-append :
    (c : ℕ) (u v : Text) → contains_char u c ≡ false → until (eqb c) (u ++ (c ∷ v)) ≡ some u
unfolding until contains_char
until-append c [] v h = ground arith
until-append c (d ∷ u) v h = ground (arith, until-append c u v)

-- Inside a separator nothing is read.
split_from-skip : (p u v : Text) → split_from p (length u) (u ++ v) ≡ split p v
unfolding split split_from
split_from-skip p [] v = refl
split_from-skip p (c ∷ u) v = split_from-skip p u v

split_append : (a : ℕ) (p v : Text) → split (a ∷ p) (a ∷ (p ++ v)) ≡ [] ∷ split (a ∷ p) v
unfolding split split_from
split_append a p v = ground (arith, starts_with-append (a ∷ p) v, split_from-skip (a ∷ p) p v)

-- A text without the separator that ends with a character that the separator lacks is a part.
pub split-append_stop :
    (c a : ℕ) (p u v : Text)
    → contains_char (a ∷ p) c ≡ false
    → contains u (a ∷ p) ≡ false
    → split (a ∷ p) (u ++ (c ∷ (a ∷ (p ++ v)))) ≡ (u ++ (c ∷ [])) ∷ split (a ∷ p) v
unfolding split split_from contains
split-append_stop c a p [] v h hu =
    ground (arith, starts_with-append_stop c (a ∷ p) [] (a ∷ (p ++ v)) h, split_append a p v)
split-append_stop c a p (d ∷ u) v h hu = ground (
  arith,
  starts_with-append_stop c (a ∷ p) (d ∷ u) (a ∷ (p ++ v)) h,
  split-append_stop c a p u v h,
)

-- What stands before the first of a character goes in front of the first half.
pub put_before : Text → Option (Text × Text) → Option (Text × Text)
put_before u none = none
put_before u (some (x, y)) = some (u ++ x, y)

pub split_once-append_other :
    (a : ℕ) (p u v : Text)
    → contains_char u a ≡ false
    → split_once (a ∷ p) (u ++ v) ≡ put_before u (split_once (a ∷ p) v)
unfolding split_once strip_prefix contains_char put_before
split_once-append_other a p [] v h = elim (Option-cases (split_once (a ∷ p) v)) [
  | inl e ↦ rw e
  | inr ((x, y), e) ↦ rw e
]
split_once-append_other a p (d ∷ u) v h = elim (Option-cases (split_once (a ∷ p) v)) [
  | inl e ↦ ground (arith, e, split_once-append_other a p u v)
  | inr ((x, y), e) ↦ ground (arith, e, split_once-append_other a p u v)
]

pub split_one : (a : ℕ) (p u : Text) → contains u (a ∷ p) ≡ false → split (a ∷ p) u ≡ u ∷ []
unfolding split split_from contains
split_one a p [] h = refl
split_one a p (d ∷ u) h = ground (arith, split_one a p u)

-- The empty line between headers and a body.
abbrev pub empty_line : Text
empty_line = 13 ∷ (10 ∷ (13 ∷ (10 ∷ [])))

pub split_once-empty_line :
    (u rest : Text)
    → contains_char u 13 ≡ false
    → split_once empty_line (u ++ (empty_line ++ rest)) ≡ some (u, rest)
unfolding split_once strip_prefix put_before
split_once-empty_line u rest h =
    split_once-append_other 13 (10 ∷ (13 ∷ (10 ∷ []))) u (empty_line ++ rest) h
    ∙ ap (λ (x : Text). some (x, rest)) (append-nil u)

-- A line end with a line behind it is not the empty line.
pub split_once-two_lines :
    (u : Text) (c : ℕ) (w rest : Text)
    → contains_char u 13 ≡ false
    → contains_char (c ∷ w) 13 ≡ false
    → split_once empty_line (u ++ (13 ∷ (10 ∷ (c ∷ (w ++ (empty_line ++ rest))))))
      ≡ some (u ++ (13 ∷ (10 ∷ (c ∷ w))), rest)
unfolding split_once strip_prefix put_before contains_char
split_once-two_lines u c w rest h k =
    let second = split_once-empty_line (c ∷ w) rest k in
    let whole =
      split_once-append_other 13 (10 ∷ (13 ∷ (10 ∷ []))) u
        (13 ∷ (10 ∷ (c ∷ (w ++ (empty_line ++ rest))))) h in
    ground (arith, second, whole)
