-- ===== src/Userdata/Mime.antt =====
-- src/userdata/mime.rs. A panic is `none`, as in Slices; `base64` and UTF-8 are the other crates'.
mod Tests
pub mod Create
pub mod NoPanic
pub mod RoundTrip
use cloud_init_rs.Prelude.Texts.{lines}
use cloud_init_rs.Prelude.Texts.{to_lowercase}
use cloud_init_rs.Prelude.{
  ℕ, ◌+◌, Bool, true, false, not, ◌&&◌, ◌||◌, Option, none, some, List, [], ◌∷◌, ◌++◌, eqb,
  if◌then◌else◌, length, is_empty, keep, unwrap_or,
}
use cloud_init_rs.Prelude.Texts.{
  Text, lit, ◌==◌, starts_with, contains, contains_char, is_whitespace, trim_start_matches,
  trim_start, trim,
}
use cloud_init_rs.Result.{Result, ok, err, Error}
use cloud_init_rs.Result.{invalid_data}
use cloud_init_rs.Network.Types.{HashMap}
use cloud_init_rs.Network.V1.Convert.{get, insert}
use cloud_init_rs.Userdata.ContentType.{ContentType, from_mime}
use cloud_init_rs.Userdata.QuotedPrintable
use cloud_init_rs.Userdata.Slices.{find, slice_from, until, split_once, split}

pub record MimePart : Type 0 where
  pub content_type : ContentType
  pub mime_type : Text
  pub content : Text
  pub filename : Option Text
  pub headers : HashMap Text

-- `base64::…::STANDARD.decode` and `String::from_utf8`, with their error messages.
pub record Decoders : Type 0 where
  pub base64_decode : Text → Result (List ℕ) Text
  pub from_utf8 : List ℕ → Result Text Text
  pub fold : ℕ → Text

-- The value behind a key: in quotes, or up to a semicolon or whitespace.
value_at : Text → Option Text
unfolding until is_whitespace
value_at [] = some []
value_at (c ∷ t) =
    if eqb c b'"'
    then until (eqb b'"') t
    else some (unwrap_or (until (λ d. eqb d b';' || is_whitespace d) (c ∷ t)) (c ∷ t))

-- `extract_boundary_value` and `extract_filename`: the position is found in the text in lower case,
-- and used in the text itself.
pub extract_value : (ℕ → Text) → Text → Text → Option (Option Text)
unfolding value_at find slice_from to_lowercase
extract_value fold key line = elim (find key (to_lowercase fold line)) [
  | none ↦ some none
  | some i ↦ elim (slice_from (i + length key) line) [
    | none ↦ none
    | some after ↦ some (value_at after)
  ]
]

-- `extract_boundary_value(line)` under its conditions, or else the rest of the loop.
or_else : Option (Option Text) → Option (Option Text) → Option (Option Text)
or_else none next = none
or_else (some none) next = next
or_else (some (some v)) next = some (some v)

-- The first loop of `find_boundary`, over the headers.
pub header_boundary : (ℕ → Text) → List Text → Option (Option Text)
unfolding extract_value or_else to_lowercase starts_with contains trim trim_start lit
header_boundary fold [] = some none
header_boundary fold (line ∷ more) =
    let lower = to_lowercase fold line in
    let later = header_boundary fold more in
    let ending = if is_empty (trim line) then some none else later in
    let continuation =
      if starts_with (trim_start line) (lit "boundary=")
      then or_else (extract_value fold (lit "boundary=") line) ending
      else ending in
    if starts_with lower (lit "content-type:") && contains lower (lit "boundary=")
    then or_else (extract_value fold (lit "boundary=") line) continuation
    else continuation

-- `trim_start_matches("--")`
strip_dashes : Text → Text
strip_dashes (a ∷ b ∷ t) = elim (eqb a b'-' && eqb b b'-') [
  | true ↦ strip_dashes t
  | false ↦ a ∷ b ∷ t
]
strip_dashes t = t

-- The second loop: a line that looks like a delimiter.
content_boundary : List Text → Option Text
unfolding strip_dashes starts_with contains_char trim lit
content_boundary [] = none
content_boundary (line ∷ more) =
    let later = content_boundary more in
    let potential = trim (strip_dashes line) in
    if starts_with line (lit "--")
      && not (starts_with line (lit "---"))
      && (not (is_empty potential) && not (contains_char potential b':'))
    then some potential
    else later

pub find_boundary : (ℕ → Text) → Text → Option (Result Text Error)
unfolding header_boundary content_boundary lines lit
find_boundary fold d = elim (header_boundary fold (lines d)) [
  | none ↦ none
  | some (some b) ↦ some (ok b)
  | some none ↦ elim (content_boundary (lines d)) [
    | some b ↦ some (ok b)
    | none ↦ some (err (invalid_data (lit "No MIME boundary found")))
  ]
]

-- The header that is being read, put among the others under its name in lower case.
put_header : (ℕ → Text) → Option (Text × Text) → HashMap Text → HashMap Text
unfolding to_lowercase insert
put_header fold none headers = headers
put_header fold (some (n, v)) headers = insert (to_lowercase fold n) v headers

is_continuation : Text → Bool
is_continuation [] = false
is_continuation (c ∷ t) = eqb c b' ' || eqb c 9

continued : Text → Option (Text × Text) → Option (Text × Text)
unfolding trim
continued line none = none
continued line (some (n, v)) = some (n, v ++ (b' ' ∷ trim line))

parse_headers : (ℕ → Text) → List Text → Option (Text × Text) → HashMap Text → HashMap Text
unfolding put_header is_continuation continued split_once trim lit
parse_headers fold [] current headers = put_header fold current headers
parse_headers fold (line ∷ more) current headers = elim (is_continuation line) [
  | true ↦ parse_headers fold more (continued line current) headers
  | false ↦ elim (split_once (lit ":") line) [
    | none ↦ parse_headers fold more current headers
    | some (n, v) ↦
        parse_headers fold more (some (trim n, trim v)) (put_header fold current headers)
  ]
]

-- The headers' text and the body.
separated : Text → Text × Text
unfolding split_once lit
separated d = elim (split_once (lit "\r\n\r\n") d) [
  | some parts ↦ parts
  | none ↦ elim (split_once (lit "\n\n") d) [ some parts ↦ parts | none ↦ ([], d) ]
]

decode_base64 : Decoders → Text → Result Text Error
unfolding is_whitespace lit
decode_base64 decoders d = elim (decoders.base64_decode (keep (λ c. not (is_whitespace c)) d)) [
  | err e ↦ err (invalid_data (lit "Base64 decode error: " ++ e))
  | ok bytes ↦ elim (decoders.from_utf8 bytes) [
    | err e ↦ err (invalid_data (lit "UTF-8 decode error: " ++ e))
    | ok t ↦ ok t
  ]
]

-- By the transfer encoding, which is compared as it is written.
decode_body : Decoders → Option Text → Text → Result Text Error
unfolding decode_base64 QuotedPrintable.decode ◌==◌ lit
decode_body decoders none body = ok body
decode_body decoders (some encoding) body =
    if encoding == lit "base64"
    then decode_base64 decoders body
    else if encoding == lit "quoted-printable"
    then ok (QuotedPrintable.decode body)
    else ok body

-- `extract_filename`
extract_filename : (ℕ → Text) → Text → Option (Option Text)
unfolding extract_value lit
extract_filename fold cd = extract_value fold (lit "filename=") cd

-- `headers.get("content-disposition").and_then(|cd| extract_filename(cd))`
filename_of : (ℕ → Text) → Option Text → Option (Option Text)
unfolding extract_filename
filename_of fold none = some none
filename_of fold (some cd) = extract_filename fold cd

build_part : Decoders → HashMap Text → Text → Option (Result (Option MimePart) Error)
unfolding filename_of decode_body from_mime get lit
build_part decoders headers body =
    let mime = unwrap_or (get (lit "content-type") headers) (lit "text/plain") in
    elim (filename_of decoders.fold (get (lit "content-disposition") headers)) [
      | none ↦ none
      | some filename ↦
          elim (decode_body decoders (get (lit "content-transfer-encoding") headers) body) [
            | err e ↦ some (err e)
            | ok content ↦ some (
                ok (
                  some (record {
                    content_type = from_mime decoders.fold mime;
                    mime_type = mime;
                    content = content;
                    filename = filename;
                    headers = headers;
                  })))
          ]
    ]

pub parse_part : Decoders → Text → Option (Result (Option MimePart) Error)
unfolding build_part parse_headers separated lines trim
parse_part decoders d =
    if is_empty (trim d)
    then some (ok none)
    else build_part decoders (parse_headers decoders.fold (lines (separated d).0) none [])
        (separated d).1

-- The preamble comes first; the epilogue begins with two dashes.
is_skipped : Text → Bool
unfolding starts_with trim lit
is_skipped section = starts_with (trim section) (lit "--") || is_empty (trim section)

add_part : Option MimePart → List MimePart → List MimePart
add_part none parts = parts
add_part (some p) parts = p ∷ parts

parse_sections : Decoders → List Text → Option (Result (List MimePart) Error)
unfolding is_skipped parse_part add_part trim_start_matches
parse_sections decoders [] = some (ok [])
parse_sections decoders (section ∷ more) =
    let later = parse_sections decoders more in
    if is_skipped section
    then later
    else elim (parse_part decoders (trim_start_matches (λ c. eqb c 13 || eqb c 10) section)) [
      | none ↦ none
      | some (err e) ↦ some (err e)
      | some (ok part) ↦ elim later [
        | none ↦ none
        | some (err e) ↦ some (err e)
        | some (ok parts) ↦ some (ok (add_part part parts))
      ]
    ]

without_preamble : List Text → List Text
without_preamble [] = []
without_preamble (s ∷ ss) = ss

unfoldable pub parse_multipart : Decoders → Text → Option (Result (List MimePart) Error)
unfolding find_boundary parse_sections without_preamble split lit
parse_multipart decoders d = elim (find_boundary decoders.fold d) [
  | none ↦ none
  | some (err e) ↦ some (err e)
  | some (ok boundary) ↦ parse_sections decoders (without_preamble (split (lit "--" ++ boundary) d))
]
