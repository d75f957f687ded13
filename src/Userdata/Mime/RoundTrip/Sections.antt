-- ===== src/Userdata/Mime/RoundTrip/Sections.antt =====
-- A written message between its delimiters: the headers, the parts, and the end.
use cloud_init_rs.Prelude.{
  ◌<◌, ◌≡◌, refl, sym, ap, ◌∙◌, false, Option, none, some, List, [], ◌∷◌, ◌++◌, append_assoc, arith,
  length, All,
}
use cloud_init_rs.Prelude.Texts.{
  Text, lit, strip_prefix, starts_with, contains, contains_char, trim,
}
use cloud_init_rs.Userdata.Slices.{split}
use cloud_init_rs.Userdata.Slices.Separators.{
  contains-append_stop, contains_short, split-append_stop, split_one, empty_line,
}
use cloud_init_rs.Userdata.Mime.{MimePart}
use cloud_init_rs.Userdata.Mime.Create.{part_text, parts_text, create_multipart}
use cloud_init_rs.Userdata.Mime.RoundTrip.Part.{
  IsHeaderText, IsFilename, quoted, part_inner, part_text-inner, header_text,
}

-- The delimiter does not stand in a file name.
abbrev pub LacksIn : Text → Option Text → Type 0
LacksIn p none = Unit {0}
LacksIn p (some f) = contains f p ≡ false

-- A part that can be written with a boundary: its headers are on one line each, and neither they nor
-- the content hold the delimiter.
pub record IsWritable (boundary : Text) (part : MimePart) : Type 0 where
  pub trimmed : trim part.mime_type ≡ part.mime_type
  pub mime_type_plain : IsHeaderText part.mime_type
  pub filename_plain : IsFilename part.filename
  pub mime_type_lacks : contains part.mime_type (lit "--" ++ boundary) ≡ false
  pub filename_lacks : LacksIn (lit "--" ++ boundary) part.filename
  pub content_lacks : contains part.content (lit "--" ++ boundary) ≡ false

-- A boundary that can be written: not empty, on one line, without quotes.
abbrev pub IsBoundary : Text → Type 0
IsBoundary b = (0 < length b) × IsHeaderText b

part_front : MimePart → Text
unfolding lit
part_front part =
    lit "\r\n"
    ++ (header_text part.mime_type part.filename ++ (empty_line ++ (part.content ++ (13 ∷ []))))

part_text-front : (part : MimePart) → part_text part ≡ part_front part ++ (10 ∷ [])
unfolding part_front part_inner lit
part_text-front part = part_text-inner part ∙ (simp append_assoc)

contains-header_text :
    (b m : Text) (f : Option Text)
    → IsHeaderText b
    → contains m (lit "--" ++ b) ≡ false
    → LacksIn (lit "--" ++ b) f
    → contains (header_text m f) (lit "--" ++ b) ≡ false
unfolding contains starts_with strip_prefix contains_char header_text quoted lit
contains-header_text b m none hb hm hf = hm
contains-header_text b m (some f) (hq, h10, h13) hm hf =
    contains-append_stop 13 (lit "--" ++ b) (lit "Content-Type: " ++ m)
      (10 ∷ (lit "Content-Disposition: " ++ quoted f)) (omega arith) h13 hm
      (contains-append_stop b'"' (lit "--" ++ b) f [] (omega arith) hq hf refl)

part_front-lacks :
    (b : Text) (part : MimePart)
    → IsHeaderText b
    → IsWritable b part
    → contains (part_front part) (lit "--" ++ b) ≡ false
unfolding contains starts_with strip_prefix contains_char part_front lit
part_front-lacks b part hb w =
    let p = lit "--" ++ b in
    let front = header_text part.mime_type part.filename in
    let some_p : 0 < length p = omega arith in
    let content = contains-append_stop 13 p part.content [] some_p hb.2 w.content_lacks refl in
    let headers =
      contains-header_text b part.mime_type part.filename hb w.mime_type_lacks w.filename_lacks in
    contains-append_stop 13 p front (10 ∷ (13 ∷ (10 ∷ (part.content ++ (13 ∷ []))))) some_p hb.2
      headers content

-- The message behind its first delimiter.
after_delimiter : Text → List MimePart → Text
unfolding lit
after_delimiter b [] = lit "--\r\n"
after_delimiter b (q ∷ qs) = part_text q ++ (lit "--" ++ (b ++ after_delimiter b qs))

parts_text-after_delimiter :
    (b : Text) (parts : List MimePart)
    → parts_text b parts ++ (lit "--" ++ (b ++ lit "--\r\n"))
      ≡ lit "--" ++ (b ++ after_delimiter b parts)
unfolding parts_text after_delimiter lit
parts_text-after_delimiter b [] = refl
parts_text-after_delimiter b (q ∷ qs) = simp (parts_text-after_delimiter b qs, append_assoc)

-- The parts' texts, and the end of the message.
unfoldable pub section_texts : List MimePart → List Text
unfolding lit
section_texts [] = lit "--\r\n" ∷ []
section_texts (q ∷ qs) = part_text q ∷ section_texts qs

split-section :
    (b front v : Text)
    → contains_char b 10 ≡ false
    → contains front (lit "--" ++ b) ≡ false
    → split (lit "--" ++ b) ((front ++ (10 ∷ [])) ++ (lit "--" ++ (b ++ v)))
      ≡ (front ++ (10 ∷ [])) ∷ split (lit "--" ++ b) v
unfolding lit contains_char
split-section b front v h k =
    ap (split (lit "--" ++ b)) (append_assoc front (10 ∷ []) (lit "--" ++ (b ++ v)))
    ∙ split-append_stop 10 b'-' (b'-' ∷ b) front v h k

split-after_delimiter :
    (b : Text) (parts : List MimePart)
    → IsBoundary b
    → All (IsWritable b) parts
    → split (lit "--" ++ b) (after_delimiter b parts) ≡ section_texts parts
unfolding after_delimiter section_texts lit contains starts_with strip_prefix contains_char
split-after_delimiter [] [] (pos, hb) ws = absurd (omega arith)
split-after_delimiter (c ∷ b) [] hb ws =
    let other : contains (lit "--\r\n") (lit "--" ++ (c ∷ b)) ≡ false = ground arith in
    split_one b'-' (b'-' ∷ (c ∷ b)) (lit "--\r\n") other
split-after_delimiter b (q ∷ qs) hb (w, ws) =
    let rest = lit "--" ++ (b ++ after_delimiter b qs) in
    let written = part_text-front q in
    ap (λ (t : Text). split (lit "--" ++ b) (t ++ rest)) written
    ∙ split-section b (part_front q) (after_delimiter b qs) hb.1.1 (part_front-lacks b q hb.1 w)
    ∙ (λ i. sym written i ∷ split-after_delimiter b qs hb ws i)

preamble_front : Text → Text
unfolding lit
preamble_front b =
    lit "MIME-Version: 1.0\r\nContent-Type: multipart/mixed; boundary=\"" ++ (b ++ lit "\"\r\n\r")

preamble_front-lacks :
    (b : Text) → IsHeaderText b → contains (preamble_front b) (lit "--" ++ b) ≡ false
unfolding preamble_front lit contains starts_with strip_prefix contains_char
preamble_front-lacks b hb =
    contains-append_stop b'"' (lit "--" ++ b) b (lit "\r\n\r") (omega arith) hb.0
      (contains_short b (lit "--" ++ b) (omega arith)) refl

create_multipart-preamble :
    (b : Text) (parts : List MimePart)
    → create_multipart parts b
      ≡ (preamble_front b ++ (10 ∷ [])) ++ (lit "--" ++ (b ++ after_delimiter b parts))
unfolding create_multipart preamble_front lit
create_multipart-preamble b parts = simp (append_assoc, parts_text-after_delimiter b parts)

-- A written message is split into what precedes its parts, and the parts.
pub split-create_multipart :
    (b : Text) (parts : List MimePart)
    → IsBoundary b
    → All (IsWritable b) parts
    → (preamble : Text) × (split (lit "--" ++ b) (create_multipart parts b)
        ≡ preamble ∷ section_texts parts)
split-create_multipart b parts hb ws = (
  preamble_front b ++ (10 ∷ []),
  ap (split (lit "--" ++ b)) (create_multipart-preamble b parts)
      ∙ split-section b (preamble_front b) (after_delimiter b parts) hb.1.1
          (preamble_front-lacks b hb.1)
      ∙ ap (λ (ss : List Text). (preamble_front b ++ (10 ∷ [])) ∷ ss)
          (split-after_delimiter b parts hb ws),
)
