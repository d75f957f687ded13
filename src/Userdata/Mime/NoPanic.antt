-- ===== src/Userdata/Mime/NoPanic.antt =====
-- Where the positions found in lower case are positions of the text itself.
use cloud_init_rs.Prelude.Texts.{to_lowercase}
use cloud_init_rs.Prelude.{ℕ, ◌+◌, ◌≢◌, inl, inr, none, arith, Option-cases, length}
use cloud_init_rs.Prelude.Texts.{Text}
use cloud_init_rs.Userdata.Slices.{find}
use cloud_init_rs.Userdata.Slices.Ascii.{
  IsAsciiText, find-length, slice_from-ascii, to_lowercase-ascii,
}
use cloud_init_rs.Userdata.Mime.{extract_value}

-- Reading a boundary or a file name out of a header in ASCII does not panic.
pub extract_value-ascii :
    (fold : ℕ → Text) (key line : Text) → IsAsciiText line → extract_value fold key line ≢ none
unfolding extract_value
extract_value-ascii fold key line a h =
    let lower = to_lowercase fold line in
    let (same, plain) = to_lowercase-ascii fold line a in
    elim (Option-cases (find key lower)) [
      | inl none_found ↦ cc (rw (none_found, extract_value) at h)
      | inr (i, found) ↦
          let (rest, e) =
            slice_from-ascii (i + length key) line a
              (omega (arith, find-length key lower i plain found, same)) in
          cc (rw (found, e, extract_value) at h)
    ]
