-- ===== src/Userdata/Mime/RoundTrip.antt =====
-- Messages that `create_multipart` writes and `parse_multipart` reads back, after mime.rs.
mod Message
mod Part
mod Sections
mod Tests
use cloud_init_rs.Prelude.{
  ℕ, zero, suc, ◌+◌, ◌-◌, ◌*◌, ◌/◌, ◌%◌, ◌^◌, ◌≤◌, ◌<◌, ◌≡◌, refl, sym, ap, ◌∙◌, subst, ◌≢◌, ◌↔◌,
  ◌⊎◌, inl, inr, Bool, true, false, not, ◌&&◌, ◌||◌, Option, none, some, List, [], ◌∷◌, ◌++◌, map,
  append-nil, append_assoc, arith, ltb, leb, eqb, if◌then◌else◌, eqb_iff, Bool-cases, Option-cases,
  length, is_empty, all, any, keep, is_some, unwrap_or, length-append, All,
}
use cloud_init_rs.Prelude.Texts.{
  Text, lit, ◌==◌, ==-refl, ==_iff, strip_prefix, starts_with, contains, contains_char,
  is_whitespace, trim_start_matches, trim_start, trim, split_char, join, decimal,
}
use cloud_init_rs.Result.{
  Result, ok, err, Error, IoError, Exec, ◌>>=◌, ◌>>◌, pure, raise, query, map_err, read_err, ignore,
  when, for_each, Result-cases,
}
use cloud_init_rs.Prelude.Texts.Trim.{trim-eq-cons}
use cloud_init_rs.Userdata.Slices.{split}
use cloud_init_rs.Userdata.Mime.{
  Decoders, MimePart, parse_part, is_skipped, parse_sections, parse_multipart, find_boundary,
}
use cloud_init_rs.Userdata.Mime.Create.{part_text, create_multipart}
use cloud_init_rs.Userdata.Mime.RoundTrip.Message.{find_boundary-create_multipart}
use cloud_init_rs.Userdata.Mime.RoundTrip.Part.{
  read_back, part_inner, part_text-inner, part_inner-eq-cons, parse_part-part_inner,
}
use cloud_init_rs.Userdata.Mime.RoundTrip.Sections.{
  IsWritable, IsBoundary, section_texts, split-create_multipart,
}

-- The line ends before a part's headers are no part of them.
without_line_ends : Text → Text
without_line_ends = trim_start_matches (λ c. eqb c 13 || eqb c 10)

without_line_ends-part_text :
    (part : MimePart) → without_line_ends (part_text part) ≡ part_inner part
unfolding without_line_ends trim_start_matches
without_line_ends-part_text part =
    let (u, e) = part_inner-eq-cons part in
    ap without_line_ends (part_text-inner part) ∙ ap without_line_ends e ∙ sym e

is_skipped-part_text : (part : MimePart) → is_skipped (part_text part) ≡ false
unfolding is_skipped starts_with strip_prefix lit
is_skipped-part_text part =
    let (u, e) = part_inner-eq-cons part in
    let (v, e') = trim-eq-cons b'C' u refl in
    ap is_skipped (part_text-inner part ∙ ap (λ (t : Text). 13 ∷ (10 ∷ t)) e)
    ∙ ap (λ (s : Text). starts_with s (lit "--") || is_empty s) e'

parse_sections-cons :
    (decoders : Decoders) (section : Text) (more : List Text) (part : MimePart)
    (parts : List MimePart)
    → is_skipped section ≡ false
    → parse_part decoders (without_line_ends section) ≡ some (ok (some part))
    → parse_sections decoders more ≡ some (ok parts)
    → parse_sections decoders (section ∷ more) ≡ some (ok (part ∷ parts))
unfolding parse_sections without_line_ends
parse_sections-cons decoders section more part parts s p h = ground (arith, s, p, h)

parse_sections-section_texts :
    (decoders : Decoders) (b : Text) (parts : List MimePart)
    → All (IsWritable b) parts
    → parse_sections decoders (section_texts parts)
      ≡ some (ok (map (read_back decoders.fold) parts))
unfolding parse_sections section_texts
parse_sections-section_texts decoders b [] ws = refl
parse_sections-section_texts decoders b (q ∷ qs) (w, ws) =
    parse_sections-cons decoders (part_text q) (section_texts qs) (read_back decoders.fold q)
      (map (read_back decoders.fold) qs) (is_skipped-part_text q)
      (ap (parse_part decoders) (without_line_ends-part_text q)
        ∙ parse_part-part_inner decoders q w.trimmed w.mime_type_plain w.filename_plain)
      (parse_sections-section_texts decoders b qs ws)

parse_multipart-eq :
    (decoders : Decoders) (d b preamble : Text) (sections : List Text)
    → find_boundary decoders.fold d ≡ some (ok b)
    → split (lit "--" ++ b) d ≡ preamble ∷ sections
    → parse_multipart decoders d ≡ parse_sections decoders sections
unfolding parse_multipart
parse_multipart-eq decoders d b preamble sections f s = rw (f, s, parse_multipart) refl

-- For a boundary that is not empty and has no quote and no line end, and parts whose MIME types
-- are trimmed, whose MIME types and file names have no quote and no line end, and in none of
-- which the delimiter stands: parse_multipart reads the message that create_multipart writes
-- without a panic and without an error, and gives the parts in their order, with their MIME
-- types, the content types of these, their file names, the headers that were written, and their
-- contents, each with one line end behind it.
pub parse_multipart-create_multipart :
    (decoders : Decoders) (parts : List MimePart) (boundary : Text)
    → IsBoundary boundary
    → All (IsWritable boundary) parts
    → parse_multipart decoders (create_multipart parts boundary)
      ≡ some (ok (map (read_back decoders.fold) parts))
parse_multipart-create_multipart decoders parts boundary hb ws =
    let (preamble, e) = split-create_multipart boundary parts hb ws in
    parse_multipart-eq decoders (create_multipart parts boundary) boundary preamble
      (section_texts parts) (find_boundary-create_multipart decoders.fold parts boundary hb.1) e
    ∙ parse_sections-section_texts decoders boundary parts ws
