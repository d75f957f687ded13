-- ===== src/Userdata/ContentType.antt =====
-- src/userdata/types.rs
pub mod Detection
mod Tests
use cloud_init_rs.Prelude.Texts.{lines}
use cloud_init_rs.Prelude.Texts.{to_lowercase}
use cloud_init_rs.Prelude.{
  ℕ, Bool, true, false, not, ◌&&◌, ◌||◌, Option, none, some, List, [], ◌∷◌, map, leb, eqb,
  if◌then◌else◌, is_empty, all, any, keep,
}
use cloud_init_rs.Prelude.Texts.{
  Text, lit, ◌==◌, starts_with, contains, trim_start, trim, split_char,
}

pub data ContentType : Type 0 where
  cloud_config script include_url cloud_boothook gzip multipart : ContentType
  jinja_template base64 part_handler upstart_job unknown : ContentType

pub mime_type : ContentType → Text
unfolding lit
mime_type cloud_config = lit "text/cloud-config"
mime_type script = lit "text/x-shellscript"
mime_type include_url = lit "text/x-include-url"
mime_type cloud_boothook = lit "text/cloud-boothook"
mime_type gzip = lit "application/x-gzip"
mime_type multipart = lit "multipart/mixed"
mime_type jinja_template = lit "text/jinja2"
mime_type base64 = lit "text/plain"
mime_type part_handler = lit "text/part-handler"
mime_type upstart_job = lit "text/upstart-job"
mime_type unknown = lit "application/octet-stream"

-- The `match` of `from_mime` on the trimmed text before the first semicolon.
type_of : Text → ContentType
unfolding lit ◌==◌ starts_with
type_of m =
    if m == lit "text/cloud-config" || m == lit "text/x-cloud-config"
    then cloud_config
    else if m == lit "text/x-shellscript" || m == lit "text/x-sh"
    then script
    else if m == lit "text/x-include-url" || m == lit "text/x-include-once-url"
    then include_url
    else if m == lit "text/cloud-boothook"
    then cloud_boothook
    else if m == lit "application/x-gzip" || m == lit "application/gzip"
    then gzip
    else if m == lit "text/jinja2" || m == lit "text/x-jinja2"
    then jinja_template
    else if m == lit "text/part-handler"
    then part_handler
    else if m == lit "text/upstart-job"
    then upstart_job
    else if starts_with m (lit "multipart/")
    then multipart
    else unknown

first_part : List Text → Text
first_part [] = []
first_part (p ∷ ps) = p

unfoldable pub from_mime : (ℕ → Text) → Text → ContentType
unfolding type_of first_part split_char to_lowercase trim
from_mime fold m = type_of (trim (first_part (split_char b';' (to_lowercase fold m))))

-- `looks_like_yaml`, of one line and of the text
yaml_line : Text → Bool
unfolding lit ◌==◌ starts_with contains
yaml_line l = contains l (lit ": ") || starts_with l (lit "- ") || l == lit "---"

looks_like_yaml : Text → Bool
unfolding yaml_line lines trim starts_with lit
looks_like_yaml t =
    any yaml_line
      (keep (λ l. not (is_empty l) && not (starts_with l (lit "#"))) (map trim (lines t)))

-- The first test that holds decides.
first_case : List (Bool × ContentType) → ContentType → ContentType
first_case [] other = other
first_case ((test, c) ∷ cases) other = if test then c else first_case cases other

-- The tests of `detect_from_text` on the text without its leading whitespace, in order.
text_cases : Text → List (Bool × ContentType)
unfolding looks_like_yaml starts_with contains lit
text_cases t =
    (starts_with t (lit "#cloud-config"), cloud_config)
    ∷ (
      starts_with t (lit "## template: jinja") || starts_with t (lit "## template:jinja"),
      jinja_template,
    )
    ∷ (starts_with t (lit "#cloud-boothook"), cloud_boothook)
    ∷ (starts_with t (lit "#include"), include_url)
    ∷ (starts_with t (lit "#upstart-job"), upstart_job)
    ∷ (starts_with t (lit "#part-handler"), part_handler)
    ∷ (starts_with t (lit "#!"), script)
    ∷ (
      (starts_with t (lit "Content-Type:") || starts_with t (lit "MIME-Version:"))
          && contains t (lit "multipart/"),
      multipart,
    )
    ∷ (looks_like_yaml t, cloud_config)
    ∷ []

pub detect_trimmed : Text → ContentType
unfolding first_case text_cases
detect_trimmed t = first_case (text_cases t) unknown

unfoldable pub detect_from_text : Text → ContentType
unfolding detect_trimmed trim_start
detect_from_text t = detect_trimmed (trim_start t)

is_ascii_alphabetic : ℕ → Bool
is_ascii_alphabetic b = (leb b'a' b && leb b b'z') || (leb b'A' b && leb b b'Z')

-- space, tab, newline, form feed and carriage return
is_ascii_whitespace : ℕ → Bool
is_ascii_whitespace b = eqb b 32 || eqb b 9 || eqb b 10 || eqb b 12 || eqb b 13

pub base64_byte : ℕ → Bool
unfolding is_ascii_alphabetic is_ascii_whitespace
base64_byte b =
    is_ascii_alphabetic b
    || (leb b'0' b && leb b b'9')
    || eqb b b'+'
    || eqb b b'/'
    || eqb b b'='
    || is_ascii_whitespace b

-- `windows(3).any(…)`: a space between two letters
word_space : List ℕ → Bool
unfolding is_ascii_alphabetic
word_space (a ∷ b ∷ c ∷ t) =
    let rest = word_space (b ∷ c ∷ t) in
    (is_ascii_alphabetic a && eqb b 32 && is_ascii_alphabetic c) || rest
word_space _ = false

pub looks_like_base64 : List ℕ → Bool
unfolding base64_byte word_space is_ascii_whitespace
looks_like_base64 bytes =
    not (is_empty bytes)
    && (all base64_byte bytes
        && (not (is_empty (keep (λ b. not (is_ascii_whitespace b)) bytes))
            && not (word_space bytes)))

-- The magic bytes of gzip.
unfoldable pub has_gzip_magic : List ℕ → Bool
has_gzip_magic (a ∷ b ∷ t) = eqb a 0x1f && eqb b 0x8b
has_gzip_magic _ = false

-- `detect`; `from_utf8` is `std::str::from_utf8`.
unfoldable pub detect : (List ℕ → Option Text) → List ℕ → ContentType
unfolding has_gzip_magic detect_from_text looks_like_base64
detect from_utf8 bytes = if has_gzip_magic bytes then gzip else elim (from_utf8 bytes) [
  | none ↦ if looks_like_base64 bytes then base64 else unknown
  | some t ↦ detect_from_text t
]

is_cloud_config : ContentType → Bool
is_cloud_config cloud_config = true
is_cloud_config jinja_template = true
is_cloud_config _ = false

is_executable : ContentType → Bool
is_executable script = true
is_executable cloud_boothook = true
is_executable _ = false
