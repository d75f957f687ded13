-- ===== src/Userdata/Mime/Tests.antt =====
-- The boundary of a header in ASCII.
use cloud_init_rs.Prelude.{◌≢◌, none, [], ◌∷◌, arith}
use cloud_init_rs.Prelude.Texts.{lit}
use cloud_init_rs.Userdata.Mime.{extract_value}
use cloud_init_rs.Userdata.Mime.NoPanic.{extract_value-ascii}

extract_value-ascii_example : extract_value (λ c. c ∷ []) (lit "b=") (lit "B=x") ≢ none
unfolding lit
extract_value-ascii_example =
    extract_value-ascii (λ c. c ∷ []) (lit "b=") (lit "B=x")
      (omega arith, (omega arith, (omega arith, tt)))
