-- ===== src/Prelude/Texts/Decimal.antt =====
-- A number is read back from its decimal digits, whatever text follows them.
use Prim.Native.Nat.{ℕ, zero, suc, ◌+◌, ◌*◌, ◌-◌, ◌/◌, ◌%◌, ◌<◌}
use mathlib.Core.Path.{◌≡◌, refl, sym, ap, ◌∙◌}
use mathlib.Core.Bool.{Bool, true, false, ◌&&◌}
use mathlib.Core.Logic.{inl, inr}
use mathlib.Core.List.{[], ◌∷◌, ◌++◌}
use native.Mathlib.Omega.{arith}
use cloud_init_rs.Prelude.Tests.{ltb, leb, if◌then◌else◌, Bool-cases}
use cloud_init_rs.Prelude.Texts.{Text, decimal, decimal_from}

-- A digit is 48 and what it stands for.
abbrev pub is_digit : ℕ → Bool
is_digit c = leb 48 c && leb c 57

-- The number that a text begins with, after the digits of `n`.
unfoldable pub leading : ℕ → Text → ℕ
leading n [] = n
leading n (c ∷ t) = let more = leading (n * 10 + (c - 48)) t in if is_digit c then more else n

leading-digit : (n d : ℕ) (t : Text) → d < 10 → leading n ((48 + d) ∷ t) ≡ leading (n * 10 + d) t
unfolding leading
leading-digit n d t h =
    let is : is_digit (48 + d) ≡ true = ground arith in
    let value : n * 10 + (48 + d - 48) ≡ n * 10 + d = omega arith in
    rw is (ap (λ (k : ℕ). leading k t) value)

leading-decimal_from :
    (f n : ℕ) (acc rest : Text)
    → n < f
    → leading 0 (decimal_from f n acc ++ rest) ≡ leading n (acc ++ rest)
unfolding decimal_from
leading-decimal_from zero n acc rest h = elim h [ ]
leading-decimal_from (suc f) n acc rest h =
    let last = leading-digit (n / 10) (n % 10) (acc ++ rest) (omega arith) in
    let whole : n / 10 * 10 + n % 10 ≡ n = omega arith in
    let value = ap (λ (k : ℕ). leading k (acc ++ rest)) whole in
    elim (Bool-cases (ltb n 10)) [
      | inl one ↦
          let none_before : n / 10 ≡ 0 = ground arith in
          rw one (
            ap (λ (k : ℕ). leading k ((48 + n % 10) ∷ (acc ++ rest))) (sym none_before)
            ∙ (last ∙ value))
      | inr more ↦
          let smaller : n / 10 < f = ground arith in
          rw more
            (leading-decimal_from f (n / 10) ((48 + n % 10) ∷ acc) rest smaller ∙ (last ∙ value))
    ]

-- The digits of a number are followed by something else than a digit.
pub leading-decimal :
    (n c : ℕ) (rest : Text) → is_digit c ≡ false → leading 0 (decimal n ++ (c ∷ rest)) ≡ n
unfolding decimal leading
leading-decimal n c rest h = leading-decimal_from (suc n) n [] (c ∷ rest) (omega arith) ∙ rw h refl

-- A zero in front does not count.
pub leading-0 : (t : Text) → leading 0 (48 ∷ t) ≡ leading 0 t
leading-0 t = leading-digit 0 0 t (omega arith)
