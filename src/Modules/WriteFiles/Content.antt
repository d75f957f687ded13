-- ===== src/Modules/WriteFiles/Content.antt =====
-- What a written file holds.
use cloud_init_rs.Prelude.{
  ℕ, ◌≡◌, refl, ap, subst, false, none, [], ◌++◌, eqb, if◌then◌else◌, unwrap_or,
}
use cloud_init_rs.Prelude.Texts.{Text, lit, trim_start_matches}
use cloud_init_rs.Result.{Result, ok, err, Error, ◌>>=◌, ◌>>◌, map_err}
use cloud_init_rs.Result.{io}
use cloud_init_rs.Result.Steps.{bind-eq-ok, map_err-eq-ok, pure-eq-ok}
use cloud_init_rs.Os.{Os}
use cloud_init_rs.Os.Laws.{WriteLaws, ChmodLaws}
use cloud_init_rs.State.Paths.{path_parent}
use cloud_init_rs.Config.Types.{WriteFileConfig}
use cloud_init_rs.Modules.WriteFiles.{
  Codecs, write_file, decode_content, set_permissions, create_parent, own, apply_mode,
  write_content, or_empty, from_octal,
}

module _ (os : Os) (codecs : Codecs) (writes : WriteLaws os) (chmods : ChmodLaws os) where
  apply_mode-read :
      (path : Text) (r : Result ℕ Text) (q : Text) (w w' : os.World)
      → apply_mode os codecs path r w ≡ (ok tt, w')
      → os.read_to_string q w' ≡ os.read_to_string q w
  unfolding apply_mode
  apply_mode-read path (ok mode) q w w' h =
      chmods.chmod-read path mode q w w' (map_err-eq-ok (os.set_permissions path mode) io w h)
  apply_mode-read path (err e) q w w' h = cc

  own-none : (path : Text) (w w' : os.World) → own os codecs path none w ≡ (ok tt, w') → w ≡ w'
  unfolding own
  own-none path w w' h = (pure-eq-ok h).1

  write_content-read :
      (config : WriteFileConfig) (content : Text) (w w' : os.World)
      → unwrap_or config.append false ≡ false
      → config.owner ≡ none
      → write_content os codecs config content w ≡ (ok tt, w')
      → os.read_to_string config.path w' ≡ ok content
  unfolding write_content set_permissions
  write_content-read config content w w' a o h =
      let path = config.path in
      let text =
        (if unwrap_or config.append false then or_empty (os.read_to_string path w) else [])
        ++ content in
      let mode = unwrap_or config.permissions (lit "0644") in
      let (u, w1, wrote, h1) =
        bind-eq-ok (map_err (os.write path text) io)
          (λ _. set_permissions os codecs path mode >> own os codecs path config.owner) w h in
      let (v, w2, set, h2) =
        bind-eq-ok (set_permissions os codecs path mode) (λ _. own os codecs path config.owner) w1
          h1 in
      let same = own-none path w2 w' (subst (λ r. own os codecs path r w2 ≡ (ok tt, w')) o h2) in
      let read = writes.write-read path text w w1 (map_err-eq-ok (os.write path text) io w wrote) in
      rw
        (
          ← same,
          apply_mode-read path (from_octal (trim_start_matches (eqb 48) mode)) path w1 w2 set,
          read,
          a,
        )
        refl

  -- For a file that is not appended to and has no owner set, where writing succeeds: its content
  -- decodes, and reading its path gives the decoded content.
  pub write_file-read :
      (config : WriteFileConfig) (w w' : os.World)
      → unwrap_or config.append false ≡ false
      → config.owner ≡ none
      → write_file os codecs config w ≡ (ok tt, w')
      → (content : Text) × (decode_content codecs config.content config.encoding ≡ ok content)
        × (os.read_to_string config.path w' ≡ ok content)
  unfolding write_file
  write_file-read config w w' a o h =
      let (u, w1, made, h1) =
        bind-eq-ok (create_parent os codecs (path_parent config.path))
          (λ _.
            (λ t. (decode_content codecs config.content config.encoding, t))
            >>= write_content os codecs config)
          w h in
      let (content, w2, decoded, h2) =
        bind-eq-ok (λ t. (decode_content codecs config.content config.encoding, t))
          (write_content os codecs config) w1 h1 in
      (
        content,
        ap (λ (r : Result Text Error × os.World). r.0) decoded,
        write_content-read config content w2 w' a o h2,
      )
