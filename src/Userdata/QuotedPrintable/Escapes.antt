-- ===== src/Userdata/QuotedPrintable/Escapes.antt =====
-- What quoted-printable decoding leaves alone.
use cloud_init_rs.Prelude.{◌≡◌, refl, ap, inl, inr, false, [], ◌∷◌, eqb, Bool-cases}
use cloud_init_rs.Prelude.Texts.{Text, contains_char}
use cloud_init_rs.Userdata.QuotedPrintable.{decode}

-- Quoted-printable decoding leaves a text without an equals sign as it is.
pub decode-plain : (t : Text) → contains_char t b'=' ≡ false → decode t ≡ t
unfolding decode contains_char
decode-plain [] h = refl
decode-plain (c ∷ t) h = elim (Bool-cases (eqb c b'=')) [
  | inl e ↦ absurd (cc (rw e at h))
  | inr e ↦ rw (e, decode) (ap (λ u. c ∷ u) (decode-plain t (rw e at h)))
]
