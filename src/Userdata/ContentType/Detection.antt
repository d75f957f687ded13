-- ===== src/Userdata/ContentType/Detection.antt =====
-- What is detected, and what never is.
use cloud_init_rs.Userdata.ContentType.{has_gzip_magic}
use cloud_init_rs.Prelude.{
  ℕ, ◌<◌, ◌≡◌, refl, ap, ◌≢◌, ◌↔◌, inl, inr, Bool, true, false, not, ◌||◌, Option, some, List, [],
  ◌∷◌, arith, Bool-cases, Option-cases, all, All,
}
use cloud_init_rs.Prelude.Texts.{Text, lit, strip_prefix, starts_with, trim_start}
use cloud_init_rs.Userdata.ContentType.{detect_from_text}
use cloud_init_rs.Userdata.ContentType.{detect}
use cloud_init_rs.Userdata.ContentType.{detect_trimmed}
use cloud_init_rs.Userdata.ContentType.{
  first_case, text_cases, ContentType, cloud_config, script, include_url, cloud_boothook, gzip,
  multipart, jinja_template, base64, part_handler, upstart_job, unknown, mime_type, from_mime,
  looks_like_base64, base64_byte,
}

-- The MIME type of every content type but Base64 is read back as that content type.
pub from_mime-mime_type :
    (fold : ℕ → Text) (c : ContentType) → c ≢ base64 → from_mime fold (mime_type c) ≡ c
unfolding from_mime mime_type
from_mime-mime_type fold cloud_config h = refl
from_mime-mime_type fold script h = refl
from_mime-mime_type fold include_url h = refl
from_mime-mime_type fold cloud_boothook h = refl
from_mime-mime_type fold gzip h = refl
from_mime-mime_type fold multipart h = refl
from_mime-mime_type fold jinja_template h = refl
from_mime-mime_type fold base64 h = absurd (h refl)
from_mime-mime_type fold part_handler h = refl
from_mime-mime_type fold upstart_job h = refl
from_mime-mime_type fold unknown h = refl

-- The bytes of ASCII text, and what decoding makes of it.
abbrev pub IsAscii : List ℕ → Type 0
IsAscii = All (λ b. b < 128)

base64_byte-lt : (b : ℕ) → base64_byte b ≡ true → b < 128
unfolding base64_byte
base64_byte-lt b h = ground arith

all-IsAscii : (bs : List ℕ) → all base64_byte bs ≡ true → IsAscii bs
all-IsAscii [] h = tt
all-IsAscii (b ∷ bs) h = (base64_byte-lt b (ground arith), all-IsAscii bs (ground arith))

looks_like_base64-IsAscii : (bs : List ℕ) → looks_like_base64 bs ≡ true → IsAscii bs
unfolding looks_like_base64
looks_like_base64-IsAscii bs h = all-IsAscii bs (ground arith)

is_base64 : ContentType → Bool
is_base64 base64 = true
is_base64 _ = false

-- No case whose test may hold gives a type with the property.
first_case-avoids :
    (f : ContentType → Bool) (cases : List (Bool × ContentType)) (other : ContentType)
    → all (λ c. not (f c.1) || not c.0) cases ≡ true
    → f other ≡ false
    → f (first_case cases other) ≡ false
unfolding first_case
first_case-avoids f [] other h o = o
first_case-avoids f ((true, c) ∷ cases) other h o = ground arith
first_case-avoids f ((false, c) ∷ cases) other h o =
    first_case-avoids f cases other (ground arith) o

detect_trimmed-ne-base64 : (t : Text) → is_base64 (detect_trimmed t) ≡ false
unfolding detect_trimmed is_base64 text_cases
detect_trimmed-ne-base64 t = first_case-avoids is_base64 (text_cases t) unknown refl refl

-- Where ASCII bytes are valid UTF-8 and are decoded to themselves: no data is detected as
-- Base64.
pub detect-ne-base64 :
    (from_utf8 : List ℕ → Option Text)
    → ((bs : List ℕ) → IsAscii bs → from_utf8 bs ≡ some bs)
    → (bs : List ℕ) → detect from_utf8 bs ≢ base64
unfolding detect detect_from_text is_base64
detect-ne-base64 from_utf8 ascii bs h = elim (Bool-cases (has_gzip_magic bs)) [
  | inl magic ↦ cc (rw magic at h)
  | inr plain ↦ elim (Option-cases (from_utf8 bs)) [
    | inr (t, read) ↦
        cc (ap is_base64 (rw (plain, read) at h), (detect_trimmed-ne-base64 (trim_start t)))
    | inl binary ↦ elim (Bool-cases (looks_like_base64 bs)) [
      | inl like ↦ cc (ascii bs (looks_like_base64-IsAscii bs like), binary)
      | inr unlike ↦ cc (rw (plain, binary, unlike) at h)
    ]
  ]
]

is_script : ContentType → Bool
is_script script = true
is_script _ = false

script_of : (c : ContentType) → is_script c ≡ true → c ≡ script
unfolding is_script
script_of script h = refl
script_of c h = ground arith

-- A shebang is none of the headers that are looked for first.
detect_trimmed-shebang : (t : Text) → is_script (detect_trimmed (b'#' ∷ b'!' ∷ t)) ≡ true
unfolding detect_trimmed is_script
detect_trimmed-shebang t = refl

shebang_chars :
    (a b : ℕ) (t : Text) → starts_with (a ∷ b ∷ t) (lit "#!") ≡ true → (a ≡ b'#') × (b ≡ b'!')
unfolding starts_with strip_prefix lit
shebang_chars a b t h = ground arith

detect_trimmed-script :
    (t : Text) → starts_with t (lit "#!") ≡ true → is_script (detect_trimmed t) ≡ true
unfolding starts_with strip_prefix lit
detect_trimmed-script [] h = cc
detect_trimmed-script (a ∷ []) h = absurd (ground arith)
detect_trimmed-script (a ∷ b ∷ t) h =
    let (hash, bang) = shebang_chars a b t h in rw (hash, bang) (detect_trimmed-shebang t)

detect_trimmed-ne-script :
    (t : Text) → starts_with t (lit "#!") ≡ false → is_script (detect_trimmed t) ≡ false
unfolding detect_trimmed is_script text_cases
detect_trimmed-ne-script t h = first_case-avoids is_script (text_cases t) unknown (rw h refl) refl

-- A text is detected as a script exactly if it starts with a shebang after its leading
-- whitespace.
pub detect_from_text-script_iff :
    (t : Text) → (detect_from_text t ≡ script) ↔ (starts_with (trim_start t) (lit "#!") ≡ true)
unfolding detect_from_text is_script
detect_from_text-script_iff t = elim (Bool-cases (starts_with (trim_start t) (lit "#!"))) [
  | inl shebang ↦ (
    λ e. shebang,
    λ e. script_of (detect_trimmed (trim_start t)) (detect_trimmed-script (trim_start t) shebang),
  )
  | inr other ↦ (
    λ e. absurd (cc (ap is_script e, (detect_trimmed-ne-script (trim_start t) other))),
    λ e. absurd (cc (e, other)),
  )
]
