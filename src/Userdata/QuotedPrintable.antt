-- ===== src/Userdata/QuotedPrintable.antt =====
-- `decode_quoted_printable` of src/userdata/mime.rs.
pub mod Escapes
use cloud_init_rs.Prelude.{
  ℕ, ◌+◌, ◌-◌, ◌*◌, true, false, ◌&&◌, ◌||◌, Option, none, some, [], ◌∷◌, leb, eqb, if◌then◌else◌,
}
use cloud_init_rs.Prelude.Texts.{Text}

hex_digit : ℕ → Option ℕ
hex_digit c =
    if leb b'0' c && leb c b'9'
    then some (c - 48)
    else if leb b'a' c && leb c b'f'
    then some (c - 87)
    else if leb b'A' c && leb c b'F'
    then some (c - 55)
    else none

-- `u8::from_str_radix` on two characters, of which the first may be a plus sign.
pub hex_byte : ℕ → ℕ → Option ℕ
unfolding hex_digit
hex_byte h k = elim (hex_digit k) [
  | none ↦ none
  | some low ↦
      if eqb h b'+'
      then some low
      else elim (hex_digit h) [ none ↦ none | some high ↦ some (high * 16 + low) ]
]

unfoldable mutual
  unfolding hex_byte

  pub decode : Text → Text
  decode [] = []
  decode (c ∷ t) = elim (eqb c b'=') [ true ↦ decode_escape t | false ↦ c ∷ decode t ]

  -- What follows an equals sign: a soft line break, or two characters that are taken in any case.
  pub decode_escape : Text → Text
  decode_escape [] = b'=' ∷ []
  decode_escape (h ∷ []) = if eqb h 13 || eqb h 10 then [] else b'=' ∷ []
  decode_escape (h ∷ k ∷ t) = elim (eqb h 13) [
    | true ↦ elim (eqb k 10) [ true ↦ decode t | false ↦ decode (k ∷ t) ]
    | false ↦ elim (eqb h 10) [
      | true ↦ decode (k ∷ t)
      | false ↦ elim (hex_byte h k) [ some b ↦ b ∷ decode t | none ↦ b'=' ∷ decode t ]
    ]
  ]
