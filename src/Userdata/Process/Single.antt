-- ===== src/Userdata/Process/Single.antt =====
-- One call of `parse_userdata` is enough, and one pass over the parts.
use cloud_init_rs.Prelude.{ℕ, suc, ◌≡◌, refl, ◌≢◌, inl, inr, Option, some, List, [], ◌∷◌}
use cloud_init_rs.Prelude.Texts.{Text}
use cloud_init_rs.Result.{Result, Error, Result-cases}
use cloud_init_rs.Userdata.ContentType.{
  ContentType, cloud_config, script, include_url, cloud_boothook, gzip, multipart, jinja_template,
  base64, part_handler, upstart_job, unknown, detect,
}
use cloud_init_rs.Userdata.ContentType.Detection.{IsAscii, detect-ne-base64}
use cloud_init_rs.Userdata.Types.{UserData}
use cloud_init_rs.Userdata.Process.{
  Readers, decompress_if_needed, parse_as, parse_once, parse_within, parse_userdata,
}

parse_as-same :
    (f g : List ℕ → Option (Result UserData Error)) (readers : Readers) (t : Text) (c : ContentType)
    → c ≢ base64
    → parse_as f readers t c ≡ parse_as g readers t c
unfolding parse_as
parse_as-same f g readers t cloud_config h = refl
parse_as-same f g readers t script h = refl
parse_as-same f g readers t include_url h = refl
parse_as-same f g readers t cloud_boothook h = refl
parse_as-same f g readers t gzip h = refl
parse_as-same f g readers t multipart h = refl
parse_as-same f g readers t jinja_template h = refl
parse_as-same f g readers t base64 h = absurd (h refl)
parse_as-same f g readers t part_handler h = refl
parse_as-same f g readers t upstart_job h = refl
parse_as-same f g readers t unknown h = refl

parse_once-same :
    (f g : List ℕ → Option (Result UserData Error)) (readers : Readers)
    → ((bs : List ℕ) → IsAscii bs → readers.from_utf8 bs ≡ some bs)
    → (bs : List ℕ) → parse_once f readers bs ≡ parse_once g readers bs
unfolding parse_once
parse_once-same f g readers ascii [] = refl
parse_once-same f g readers ascii (b ∷ bs) =
    elim (Result-cases (decompress_if_needed readers.gunzip (b ∷ bs))) [
      | inl (bytes, e) ↦
          rw (e, parse_once)
            (parse_as-same f g readers (readers.from_utf8_lossy bytes)
              (detect readers.from_utf8 bytes) (detect-ne-base64 readers.from_utf8 ascii bytes))
      | inr (e, failed) ↦ rw (failed, parse_once) refl
    ]

-- Where ASCII bytes are valid UTF-8 and are decoded to themselves: however many calls of
-- parse_userdata inside each other are allowed, the first of them gives the result, so
-- parse_userdata never calls itself.
pub parse_within-parse_userdata :
    (readers : Readers)
    → ((bs : List ℕ) → IsAscii bs → readers.from_utf8 bs ≡ some bs)
    → (n : ℕ) (bs : List ℕ) → parse_within (suc n) readers bs ≡ parse_userdata readers bs
unfolding parse_userdata parse_within
parse_within-parse_userdata readers ascii n bs =
    parse_once-same (parse_within n readers) (parse_within 0 readers) readers ascii bs
