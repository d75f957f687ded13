-- ===== src/Userdata/Mime/RoundTrip/Part.antt =====
-- One written part, read by `parse_part`.
use cloud_init_rs.Userdata.Mime.{extract_value}
use cloud_init_rs.Prelude.{
  ℕ, ◌≡◌, refl, ap, ◌∙◌, false, Option, none, some, List, [], ◌∷◌, ◌++◌, append_assoc, arith,
  is_empty,
}
use cloud_init_rs.Prelude.Texts.{Text, lit, ◌==◌, strip_prefix, contains_char, is_whitespace, trim}
use cloud_init_rs.Result.{ok}
use cloud_init_rs.Prelude.Texts.{lines}
use cloud_init_rs.Prelude.Texts.Lines.{lines-append, lines_one, contains_char-concat}
use cloud_init_rs.Prelude.Texts.Trim.{trim-eq-cons, trim-eq_self}
use cloud_init_rs.Userdata.Slices.{split_once}
use cloud_init_rs.Userdata.Slices.Separators.{
  until-append, split_once-empty_line, split_once-two_lines, empty_line,
}
use cloud_init_rs.Network.Types.{HashMap}
use cloud_init_rs.Network.V1.Convert.{get}
use cloud_init_rs.Userdata.ContentType.{from_mime}
use cloud_init_rs.Userdata.Mime.{
  Decoders, MimePart, parse_part, parse_headers, separated, filename_of, build_part,
}
use cloud_init_rs.Userdata.Mime.Create.{part_text}

-- A text in a header: on one line, and without the quotes that may stand around it.
abbrev pub IsHeaderText : Text → Type 0
IsHeaderText t =
    (contains_char t b'"' ≡ false) × (contains_char t 10 ≡ false) × (contains_char t 13 ≡ false)

-- A file name is written in quotes.
abbrev pub IsFilename : Option Text → Type 0
IsFilename none = Unit {0}
IsFilename (some f) = IsHeaderText f

-- The headers of a part, as they are written: its type, and its file name in quotes.
unfoldable pub quoted : Text → Text
unfolding lit
quoted f = lit "attachment; filename=\"" ++ (f ++ (b'"' ∷ []))

pub headers_of : Text → Option Text → HashMap Text
unfolding lit quoted
headers_of m none = (lit "content-type", m) ∷ []
headers_of m (some f) = (lit "content-type", m) ∷ (lit "content-disposition", quoted f) ∷ []

filename_of-quoted :
    (fold : ℕ → Text) (f : Text)
    → contains_char f b'"' ≡ false
    → filename_of fold (some (quoted f)) ≡ some (some f)
unfolding filename_of extract_value quoted lit
filename_of-quoted fold f h = rw (until-append b'"' f [] h) refl

-- The text of the headers.
unfoldable pub header_text : Text → Option Text → Text
unfolding lit
header_text m none = lit "Content-Type: " ++ m
header_text m (some f) =
    (lit "Content-Type: " ++ m) ++ (13 ∷ (10 ∷ (lit "Content-Disposition: " ++ quoted f)))

trim-quoted : (f : Text) → trim (quoted f) ≡ quoted f
unfolding quoted lit is_whitespace
trim-quoted f = trim-eq_self b'a' b'"' (lit "ttachment; filename=\"" ++ f) refl refl

lines-header_text :
    (m f : Text)
    → contains_char m 10 ≡ false
    → contains_char f 10 ≡ false
    → lines (header_text m (some f))
      ≡ (lit "Content-Type: " ++ m) ∷ ((lit "Content-Disposition: " ++ quoted f) ∷ [])
unfolding header_text quoted lit contains_char
lines-header_text m f hm hf =
    lines-append (lit "Content-Type: " ++ m) (lit "Content-Disposition: " ++ quoted f) hm
    ∙ ap (λ (ls : List Text). (lit "Content-Type: " ++ m) ∷ ls)
        (lines_one b'C' (lit "ontent-Disposition: " ++ quoted f)
          (contains_char-concat 10 b'"' f hf refl))

parse_headers-header_text :
    (fold : ℕ → Text) (m : Text) (f : Option Text)
    → trim m ≡ m
    → contains_char m 10 ≡ false
    → IsFilename f
    → parse_headers fold (lines (header_text m f)) none [] ≡ headers_of m f
unfolding parse_headers header_text headers_of lit trim contains_char strip_prefix ◌==◌
parse_headers-header_text fold m none t h w =
    ap (λ (ls : List Text). parse_headers fold ls none [])
      (lines_one b'C' (lit "ontent-Type: " ++ m) h)
    ∙ ap (λ (v : Text). (lit "content-type", v) ∷ []) t
parse_headers-header_text fold m (some f) t h w =
    ap (λ (ls : List Text). parse_headers fold ls none []) (lines-header_text m f h w.1)
    ∙ (λ i. (lit "content-type", t i) ∷ ((lit "content-disposition", trim-quoted f i) ∷ []))

separated-eq :
    (d : Text) (parts : Text × Text) → split_once empty_line d ≡ some parts → separated d ≡ parts
unfolding separated lit
separated-eq d parts h = rw (h, separated)

-- The body of a part begins after the first empty line, which its headers lack.
separated-header_text :
    (m : Text) (f : Option Text) (body : Text)
    → contains_char m 13 ≡ false
    → IsFilename f
    → separated (header_text m f ++ (empty_line ++ body)) ≡ (header_text m f, body)
unfolding header_text quoted lit contains_char
separated-header_text m none body h w =
    separated-eq _ _ (split_once-empty_line (lit "Content-Type: " ++ m) body h)
separated-header_text m (some f) body h (_, _, w) =
    let w' = contains_char-concat 13 b'"' f w refl in
    separated-eq _ _ (
      ap (split_once empty_line) (append_assoc (lit "Content-Type: " ++ m) _ (empty_line ++ body))
      ∙ split_once-two_lines (lit "Content-Type: " ++ m) b'C'
          (lit "ontent-Disposition: " ++ quoted f) body h w')

-- A part as it is read back: with the type that its MIME type stands for, and with the line end
-- that is written behind its content.
pub read_back : (ℕ → Text) → MimePart → MimePart
unfolding headers_of lit
read_back fold part = record {
  content_type = from_mime fold part.mime_type;
  mime_type = part.mime_type;
  content = part.content ++ lit "\r\n";
  filename = part.filename;
  headers = headers_of part.mime_type part.filename;
}

-- What a part is built from.
build_part-eq :
    (decoders : Decoders) (headers : HashMap Text) (m body : Text) (f : Option Text)
    → get (lit "content-type") headers ≡ some m
    → filename_of decoders.fold (get (lit "content-disposition") headers) ≡ some f
    → get (lit "content-transfer-encoding") headers ≡ none
    → build_part decoders headers body
      ≡ some (
          ok (
            some (record {
              content_type = from_mime decoders.fold m;
              mime_type = m;
              content = body;
              filename = f;
              headers = headers;
            })))
unfolding build_part
build_part-eq decoders headers m body f hm hf he = ground (arith, hm, hf, he)

build_part-headers_of :
    (decoders : Decoders) (m : Text) (f : Option Text) (body : Text)
    → IsFilename f
    → build_part decoders (headers_of m f) body
      ≡ some (
          ok (
            some (record {
              content_type = from_mime decoders.fold m;
              mime_type = m;
              content = body;
              filename = f;
              headers = headers_of m f;
            })))
unfolding headers_of lit filename_of get ◌==◌
build_part-headers_of decoders m none body w =
    build_part-eq decoders (headers_of m none) m body none refl refl refl
build_part-headers_of decoders m (some f) body w =
    build_part-eq decoders (headers_of m (some f)) m body (some f) refl
      (filename_of-quoted decoders.fold f w.0) refl

header_text-eq-cons : (m : Text) (f : Option Text) → (t : Text) × (header_text m f ≡ b'C' ∷ t)
unfolding header_text lit
header_text-eq-cons m none = (_, refl)
header_text-eq-cons m (some f) = (_, refl)

-- What `parse_part` is given, without the line end before it.
unfoldable pub part_inner : MimePart → Text
unfolding lit
part_inner part =
    header_text part.mime_type part.filename ++ (empty_line ++ (part.content ++ lit "\r\n"))

part_text-filename :
    (part : MimePart) (f : Option Text)
    → part_text (record part { filename = f })
      ≡ 13 ∷ (10 ∷ part_inner (record part { filename = f }))
unfolding part_text part_inner header_text quoted lit
part_text-filename part none = refl
part_text-filename part (some f) = simp append_assoc

pub part_text-inner : (part : MimePart) → part_text part ≡ 13 ∷ (10 ∷ part_inner part)
part_text-inner part = part_text-filename part part.filename

pub part_inner-eq-cons : (part : MimePart) → (t : Text) × (part_inner part ≡ b'C' ∷ t)
unfolding part_inner
part_inner-eq-cons part =
    let (t, e) = header_text-eq-cons part.mime_type part.filename in
    (t ++ (empty_line ++ (part.content ++ lit "\r\n")), rw e)

parse_part-eq :
    (decoders : Decoders) (d : Text)
    → is_empty (trim d) ≡ false
    → parse_part decoders d
      ≡ build_part decoders
          (parse_headers decoders.fold (lines (separated d).0) none [])
          (separated d).1
unfolding parse_part
parse_part-eq decoders d h = rw (h, parse_part)

-- A written part is read back.
pub parse_part-part_inner :
    (decoders : Decoders) (part : MimePart)
    → trim part.mime_type ≡ part.mime_type
    → IsHeaderText part.mime_type
    → IsFilename part.filename
    → parse_part decoders (part_inner part) ≡ some (ok (some (read_back decoders.fold part)))
unfolding read_back part_inner is_whitespace
parse_part-part_inner decoders part t (_, h10, h13) w =
    let m = part.mime_type in
    let f = part.filename in
    let body = part.content ++ lit "\r\n" in
    let (u, e) = part_inner-eq-cons part in
    let (v, e') = trim-eq-cons b'C' u refl in
    let some_text : is_empty (trim (part_inner part)) ≡ false =
      ap (λ (s : Text). is_empty (trim s)) e ∙ ap is_empty e' in
    let halves = separated-header_text m f body h13 w in
    parse_part-eq decoders (part_inner part) some_text
    ∙ ap
        (λ (p : Text × Text).
          build_part decoders (parse_headers decoders.fold (lines p.0) none []) p.1)
        halves
    ∙ ap (λ (hs : HashMap Text). build_part decoders hs body)
        (parse_headers-header_text decoders.fold m f t h10 w)
    ∙ build_part-headers_of decoders m f body w
