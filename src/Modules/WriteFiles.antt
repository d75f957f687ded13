-- ===== src/Modules/WriteFiles.antt =====
-- src/modules/write_files.rs
-- Base64, gzip and UTF-8 are other crates' work: an interface, with their error messages.
mod Content
mod Passes
mod Tests
use cloud_init_rs.Result.{◌>>=◌}
use cloud_init_rs.Result.{◌>>◌}
use cloud_init_rs.Prelude.{
  ℕ, ◌+◌, ◌-◌, ◌*◌, ◌^◌, Bool, false, ◌||◌, Option, none, some, List, [], ◌∷◌, ◌++◌, ltb, eqb,
  if◌then◌else◌, unwrap_or,
}
use cloud_init_rs.Prelude.Texts.{Text, lit, ◌==◌, trim_start_matches}
use cloud_init_rs.Result.{Result, ok, err, Error, Exec, pure, raise, query, map_err, when}
use cloud_init_rs.Result.{io, command, invalid_data}
use cloud_init_rs.Os.{Os, command_of, success}
use cloud_init_rs.State.Paths.{path_parent}
use cloud_init_rs.Config.Types.{WriteFileConfig}

pub record Codecs : Type 0 where
  pub base64_decode : Text → Result (List ℕ) Text
  pub from_utf8 : List ℕ → Result Text Text
  pub as_bytes : Text → List ℕ
  pub gunzip : List ℕ → Result Text Text

-- `.map_err(|e| CloudInitError::InvalidData(format!(…, e)))?`
abbrev checked {ℓ κ} :
    {A : Type ℓ} {B : Type κ} → Text → Result A Text → (A → Result B Error) → Result B Error
checked what (ok a) f = f a
checked what (err e) f = err (invalid_data (what ++ e))

module _ (codecs : Codecs) where
  pub decompress_gzip : List ℕ → Result Text Error
  unfolding lit
  decompress_gzip bytes =
      checked (lit "Failed to decompress gzip: ") (codecs.gunzip bytes) λ t. ok t

  pub decode_content : Text → Option Text → Result Text Error
  unfolding lit ◌==◌ decompress_gzip
  decode_content content none = ok content
  decode_content content (some e) =
      if e == lit "base64" || e == lit "b64"
      then checked (lit "Invalid base64: ") (codecs.base64_decode content)
          (λ bytes. checked (lit "Invalid UTF-8: ") (codecs.from_utf8 bytes) λ t. ok t)
      else if e == lit "gzip" || e == lit "gz"
      then decompress_gzip (codecs.as_bytes content)
      else if e == lit "gz+base64"
          || e == lit "gzip+base64"
          || e == lit "gz+b64"
          || e == lit "b64+gzip"
          || e == lit "base64+gzip"
      then checked (lit "Invalid base64: ") (codecs.base64_decode content) decompress_gzip
      else err (invalid_data (lit "Unknown encoding: " ++ e))

-- `u32::from_str_radix(digits, 8)`, from the left
octal_digits : ℕ → Text → Result ℕ Text
unfolding lit
octal_digits n [] = ok n
octal_digits n (c ∷ cs) =
    let m = n * 8 + (c - 48) in
    let rest = octal_digits m cs in
    if ltb c 48 || ltb 55 c
    then err (lit "invalid digit found in string")
    else if ltb m (2 ^ 32)
    then rest
    else err (lit "number too large to fit in target type")

from_octal : Text → Result ℕ Text
unfolding lit octal_digits
from_octal [] = err (lit "cannot parse integer from empty string")
from_octal (c ∷ []) =
    if eqb c 43 then err (lit "invalid digit found in string") else octal_digits 0 (c ∷ [])
from_octal (c ∷ d ∷ cs) = if eqb c 43 then octal_digits 0 (d ∷ cs) else octal_digits 0 (c ∷ d ∷ cs)

-- `of.unwrap_or_default()`
abbrev or_empty : Result Text Text → Text
or_empty (ok t) = t
or_empty (err e) = []

module _ (os : Os) (codecs : Codecs) where
  pub apply_mode : Text → Result ℕ Text → Exec os.World (Unit {0})
  unfolding lit
  apply_mode path (ok mode) = map_err (os.set_permissions path mode) io
  apply_mode path (err e) = raise (invalid_data (lit "Invalid permissions: " ++ e))

  pub set_permissions : Text → Text → Exec os.World (Unit {0})
  unfolding from_octal trim_start_matches apply_mode
  set_permissions path perms = apply_mode path (from_octal (trim_start_matches (eqb 48) perms))

  pub set_ownership : Text → Text → Exec os.World (Unit {0})
  unfolding lit
  set_ownership path owner = do
    o ← map_err (os.output (command_of (lit "chown") (owner ∷ path ∷ []))) command
    if success o then pure tt else raise (command (lit "Failed to set ownership: " ++ o.stderr))

  -- `create_dir_all` of the parent, if there is one
  pub create_parent : Option Text → Exec os.World (Unit {0})
  create_parent none = pure tt
  create_parent (some p) = map_err (os.create_dir_all p) io

  pub own : Text → Option Text → Exec os.World (Unit {0})
  unfolding set_ownership
  own path none = pure tt
  own path (some owner) = set_ownership path owner

  -- The part of `write_file` after the content is decoded.
  pub write_content : WriteFileConfig → Text → Exec os.World (Unit {0})
  unfolding lit set_permissions own
  write_content config content = do
    existing ← query λ w.
        if unwrap_or config.append false then or_empty (os.read_to_string config.path w) else []
    map_err (os.write config.path (existing ++ content)) io
    set_permissions config.path (unwrap_or config.permissions (lit "0644"))
    own config.path config.owner

  pub write_file : WriteFileConfig → Exec os.World (Unit {0})
  unfolding path_parent decode_content create_parent write_content
  write_file config = do
    create_parent (path_parent config.path)
    content ← λ w. (decode_content codecs config.content config.encoding, w)
    write_content config content

  -- `file.defer == Some(true)`
  pub deferred : WriteFileConfig → Bool
  deferred file = unwrap_or file.defer false

  pub write_files : List WriteFileConfig → Exec os.World (Unit {0})
  unfolding write_file deferred
  write_files [] = pure tt
  write_files (file ∷ files) = do
    if deferred file then pure tt else write_file file
    write_files files

  pub write_deferred_files : List WriteFileConfig → Exec os.World (Unit {0})
  unfolding write_file deferred
  write_deferred_files [] = pure tt
  write_deferred_files (file ∷ files) = do
    when (deferred file) (write_file file)
    write_deferred_files files
