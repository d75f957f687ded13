-- ===== src/Userdata/Process.antt =====
-- src/userdata/mod.rs.
mod Tests
pub mod Single
pub mod Sorted
use cloud_init_rs.Prelude.Texts.{lines}
use cloud_init_rs.Prelude.{
  ℕ, zero, suc, Bool, not, ◌&&◌, ◌||◌, Option, none, some, List, [], ◌∷◌, ◌++◌, map, if◌then◌else◌,
  is_empty, keep,
}
use cloud_init_rs.Prelude.Texts.{Text, lit, starts_with, is_whitespace, trim}
use cloud_init_rs.Result.{Result, ok, err, Error}
use cloud_init_rs.Result.{invalid_data, yaml}
use cloud_init_rs.Config.Types.{CloudConfig, Serde, from_yaml}
use cloud_init_rs.Userdata.ContentType.{
  ContentType, cloud_config, script, include_url, cloud_boothook, gzip, multipart, jinja_template,
  base64, detect, from_mime, has_gzip_magic,
}
use cloud_init_rs.Userdata.Types.{UserData, UserDataPart, multi_part, no_data}
use cloud_init_rs.Userdata.Mime.{Decoders, MimePart, parse_multipart}

-- The crates behind the parsing: `GzDecoder`, `std::str::from_utf8` and `String::from_utf8_lossy`.
pub record Readers : Type 0 where
  pub decoders : Decoders
  pub serde : Serde
  pub gunzip : List ℕ → Result (List ℕ) Text
  pub from_utf8 : List ℕ → Option Text
  pub from_utf8_lossy : List ℕ → Text

unfoldable pub decompress_if_needed :
    (List ℕ → Result (List ℕ) Text) → List ℕ → Result (List ℕ) Error
unfolding has_gzip_magic lit
decompress_if_needed gunzip bytes =
    if has_gzip_magic bytes
    then elim (gunzip bytes) [
      | err e ↦ err (invalid_data (lit "Gzip decompression failed: " ++ e))
      | ok plain ↦ ok plain
    ]
    else ok bytes

concat : List Text → Text
concat [] = []
concat (t ∷ ts) = t ++ concat ts

unfoldable pub decode_base64 : (Text → Result (List ℕ) Text) → Text → Result (List ℕ) Error
unfolding concat lines starts_with is_whitespace lit
decode_base64 decode t =
    let cleaned = concat (keep (λ l. not (starts_with l (lit "-----"))) (lines t)) in
    elim (decode (keep (λ c. not (is_whitespace c)) cleaned)) [
      | err e ↦ err (invalid_data (lit "Base64 decode error: " ++ e))
      | ok bytes ↦ ok bytes
    ]

is_url : Text → Bool
unfolding starts_with lit
is_url line =
    not (is_empty line || starts_with line (lit "#include") || starts_with line (lit "#"))
    && (starts_with line (lit "http://") || starts_with line (lit "https://"))

url_part : Text → UserDataPart
unfolding lit
url_part line = record { content_type = lit "text/x-include-url"; content = line; filename = none }

-- The body of the loop of `parse_include_urls`, for the lines after the first ones.
url_parts : List Text → List UserDataPart
unfolding is_url url_part trim
url_parts [] = []
url_parts (line ∷ more) =
    let later = url_parts more in if is_url (trim line) then url_part (trim line) ∷ later else later

unfoldable pub parse_include_urls : Text → List UserDataPart
unfolding url_parts lines
parse_include_urls t = url_parts (lines t)

user_part : MimePart → UserDataPart
user_part p = record { content_type = p.mime_type; content = p.content; filename = p.filename }

unfoldable pub user_data_of : Option (Result (List MimePart) Error) → Option (Result UserData Error)
unfolding user_part
user_data_of none = none
user_data_of (some (err e)) = some (err e)
user_data_of (some (ok parts)) = some (ok (multi_part (map user_part parts)))

included : List UserDataPart → UserData
included [] = no_data
included (p ∷ ps) = multi_part (p ∷ ps)

config_of : Result CloudConfig Text → Result UserData Error
config_of (err e) = err (yaml e)
config_of (ok c) = ok (UserData.cloud_config c)

-- `parse_userdata(&decoded)` after a Base64 text was decoded.
again_with :
    (List ℕ → Option (Result UserData Error))
    → Result (List ℕ) Error
    → Option (Result UserData Error)
again_with again (err e) = some (err e)
again_with again (ok bytes) = again bytes

-- The `match` over the content type of decompressed data.
unfoldable pub parse_as :
    (List ℕ → Option (Result UserData Error))
    → Readers
    → Text
    → ContentType
    → Option (Result UserData Error)
unfolding user_data_of included config_of again_with parse_multipart parse_include_urls
    decode_base64 from_yaml lit
parse_as again readers t cloud_config = some (config_of (from_yaml readers.serde t))
parse_as again readers t jinja_template = some (config_of (from_yaml readers.serde t))
parse_as again readers t script = some (ok (UserData.script t))
parse_as again readers t cloud_boothook = some (ok (UserData.script t))
parse_as again readers t multipart = user_data_of (parse_multipart readers.decoders t)
parse_as again readers t include_url = some (ok (included (parse_include_urls t)))
parse_as again readers t gzip =
    some (err (invalid_data (lit "Gzip data could not be decompressed")))
parse_as again readers t base64 = again_with again (decode_base64 readers.decoders.base64_decode t)
parse_as again readers t _ = some (ok (UserData.script t))

-- One call of `parse_userdata`, whose own call is `again`.
unfoldable pub parse_once :
    (List ℕ → Option (Result UserData Error)) → Readers → List ℕ → Option (Result UserData Error)
unfolding decompress_if_needed parse_as detect
parse_once again readers [] = some (ok no_data)
parse_once again readers (b ∷ bs) = elim (decompress_if_needed readers.gunzip (b ∷ bs)) [
  | err e ↦ some (err e)
  | ok bytes ↦
      parse_as again readers (readers.from_utf8_lossy bytes) (detect readers.from_utf8 bytes)
]

-- At most so many calls of `parse_userdata`, one inside the other.
unfoldable pub parse_within : ℕ → Readers → List ℕ → Option (Result UserData Error)
unfolding parse_once
parse_within zero readers bytes = none
parse_within (suc n) readers bytes = parse_once (parse_within n readers) readers bytes

unfoldable pub parse_userdata : Readers → List ℕ → Option (Result UserData Error)
unfolding parse_within
parse_userdata readers bytes = parse_within 1 readers bytes

pub record ScriptPart : Type 0 where
  pub content : Text
  pub filename : Option Text

pub record ProcessedUserData : Type 0 where
  pub cloud_configs : List Text
  pub scripts : List ScriptPart
  pub boothooks : List ScriptPart
  pub includes : List Text

abbrev pub default_processed : ProcessedUserData
default_processed = record { cloud_configs = []; scripts = []; boothooks = []; includes = [] }

unfoldable pub script_part : UserDataPart → ScriptPart
script_part p = record { content = p.content; filename = p.filename }

-- The body of the loop of `process_multipart`.
unfoldable pub push_part : UserDataPart → ContentType → ProcessedUserData → ProcessedUserData
unfolding script_part
push_part p cloud_config d = record d { cloud_configs = d.cloud_configs ++ (p.content ∷ []) }
push_part p jinja_template d = record d { cloud_configs = d.cloud_configs ++ (p.content ∷ []) }
push_part p script d = record d { scripts = d.scripts ++ (script_part p ∷ []) }
push_part p cloud_boothook d = record d { boothooks = d.boothooks ++ (script_part p ∷ []) }
push_part p include_url d = record d { includes = d.includes ++ (p.content ∷ []) }
push_part p _ d = d

unfoldable pub process_parts :
    (ℕ → Text) → List UserDataPart → ProcessedUserData → ProcessedUserData
unfolding push_part from_mime
process_parts fold [] d = d
process_parts fold (p ∷ ps) d =
    process_parts fold ps (push_part p (from_mime fold p.content_type) d)

unfoldable pub process_multipart : (ℕ → Text) → List UserDataPart → ProcessedUserData
unfolding process_parts
process_multipart fold parts = process_parts fold parts default_processed
