-- ===== src/Userdata/Process/Tests.antt =====
-- User-data on a machine whose decoders take every byte for a character.
use cloud_init_rs.Prelude.{◌≡◌, refl, true, none, some, [], ◌∷◌}
use cloud_init_rs.Prelude.Texts.{lit}
use cloud_init_rs.Result.{ok}
use cloud_init_rs.Config.Yaml.{null}
use cloud_init_rs.Config.Types.{Serde, default_config}
use cloud_init_rs.Userdata.Mime.{Decoders}
use cloud_init_rs.Userdata.Types.{UserDataPart}
use cloud_init_rs.Userdata.Process.{Readers, parse_within, parse_userdata, process_multipart}
use cloud_init_rs.Userdata.Process.Single.{parse_within-parse_userdata}
use cloud_init_rs.Userdata.Process.Sorted.{sorted, process_multipart-eq-sorted}

abbrev decoders : Decoders
decoders = record { base64_decode = λ t. ok t; from_utf8 = λ bs. ok bs; fold = λ c. c ∷ [] }

abbrev serde : Serde
serde = record {
  from_str = λ t. ok default_config;
  to_value = λ c. ok null;
  from_value = λ v. ok default_config;
  value_eq = λ a b. true;
}

abbrev readers : Readers
readers = record {
  decoders = decoders;
  serde = serde;
  gunzip = λ bs. ok bs;
  from_utf8 = λ bs. some bs;
  from_utf8_lossy = λ bs. bs;
}

abbrev hook : UserDataPart
hook = record { content_type = lit "text/cloud-boothook"; content = lit "x"; filename = none }

abbrev shell : UserDataPart
shell = record { content_type = lit "text/x-shellscript"; content = lit "y"; filename = none }

parse_within-parse_userdata_example :
    parse_within 3 readers (lit "aGVsbG8=") ≡ parse_userdata readers (lit "aGVsbG8=")
parse_within-parse_userdata_example =
    parse_within-parse_userdata readers (λ bs a. refl) 2 (lit "aGVsbG8=")

process_multipart-eq-sorted_example :
    process_multipart (λ c. c ∷ []) (hook ∷ shell ∷ []) ≡ sorted (λ c. c ∷ []) (hook ∷ shell ∷ [])
process_multipart-eq-sorted_example = process_multipart-eq-sorted (λ c. c ∷ []) (hook ∷ shell ∷ [])
