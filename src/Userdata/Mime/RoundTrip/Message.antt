-- ===== src/Userdata/Mime/RoundTrip/Message.antt =====
-- The headers of a written message: where the boundary is found.
use cloud_init_rs.Prelude.{
  ℕ, ◌≡◌, refl, ap, ◌∙◌, false, some, List, [], ◌∷◌, ◌++◌, append_assoc, arith,
}
use cloud_init_rs.Prelude.Texts.{Text, lit, contains_char}
use cloud_init_rs.Result.{ok}
use cloud_init_rs.Prelude.Texts.{lines}
use cloud_init_rs.Prelude.Texts.Lines.{lines-append, contains_char-concat}
use cloud_init_rs.Userdata.Slices.Separators.{until-append}
use cloud_init_rs.Userdata.Mime.{MimePart, find_boundary, header_boundary, extract_value}
use cloud_init_rs.Userdata.Mime.Create.{parts_text, create_multipart}
use cloud_init_rs.Userdata.Mime.RoundTrip.Part.{IsHeaderText}

pub boundary_line : Text → Text
unfolding lit
boundary_line b = lit "Content-Type: multipart/mixed; boundary=\"" ++ (b ++ (b'"' ∷ []))

-- What follows the first delimiter's line end, with the last delimiter.
pub after_headers : Text → List MimePart → Text
unfolding lit
after_headers b parts = lit "\r\n" ++ (parts_text b parts ++ (lit "--" ++ (b ++ lit "--\r\n")))

pub create_multipart-lines :
    (parts : List MimePart) (b : Text)
    → create_multipart parts b
      ≡ lit "MIME-Version: 1.0"
        ++ (13 ∷ (10 ∷ (boundary_line b ++ (13 ∷ (10 ∷ after_headers b parts)))))
unfolding create_multipart boundary_line after_headers lit
create_multipart-lines parts b = simp append_assoc

extract_value-boundary_line :
    (fold : ℕ → Text) (b : Text)
    → contains_char b b'"' ≡ false
    → extract_value fold (lit "boundary=") (boundary_line b) ≡ some (some b)
unfolding extract_value boundary_line lit
extract_value-boundary_line fold b h = rw (until-append b'"' b [] h) refl

header_boundary-line :
    (fold : ℕ → Text) (b : Text) (ls : List Text)
    → contains_char b b'"' ≡ false
    → header_boundary fold (lit "MIME-Version: 1.0" ∷ (boundary_line b ∷ ls)) ≡ some (some b)
unfolding header_boundary boundary_line lit
header_boundary-line fold b ls h = rw (until-append b'"' b [] h) refl

find_boundary-eq :
    (fold : ℕ → Text) (d b : Text)
    → header_boundary fold (lines d) ≡ some (some b)
    → find_boundary fold d ≡ some (ok b)
unfolding find_boundary
find_boundary-eq fold d b h = ground (arith, h)

lines-create_multipart :
    (parts : List MimePart) (b : Text)
    → contains_char b 10 ≡ false
    → lines (create_multipart parts b)
      ≡ lit "MIME-Version: 1.0" ∷ (boundary_line b ∷ lines (after_headers b parts))
unfolding boundary_line lit contains_char
lines-create_multipart parts b h =
    let first = lit "MIME-Version: 1.0" in
    ap lines (create_multipart-lines parts b)
    ∙ lines-append first (boundary_line b ++ (13 ∷ (10 ∷ after_headers b parts))) refl
    ∙ ap (λ (ls : List Text). first ∷ ls)
        (lines-append (boundary_line b) (after_headers b parts)
          (contains_char-concat 10 b'"' b h refl))

-- The boundary of a written message is found.
pub find_boundary-create_multipart :
    (fold : ℕ → Text) (parts : List MimePart) (b : Text)
    → IsHeaderText b
    → find_boundary fold (create_multipart parts b) ≡ some (ok b)
find_boundary-create_multipart fold parts b (quotes, newlines, _) =
    find_boundary-eq fold (create_multipart parts b) b (
      ap (header_boundary fold) (lines-create_multipart parts b newlines)
      ∙ header_boundary-line fold b (lines (after_headers b parts)) quotes)
