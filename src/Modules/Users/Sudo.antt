-- ===== src/Modules/Users/Sudo.antt =====
-- A sudo rule stays on the machine only if `visudo` accepts it.
use cloud_init_rs.Modules.Users.{judge_sudoers}
use cloud_init_rs.Prelude.{◌≡◌, ap, ◌∙◌, ◌≢◌, ◌⊎◌, inl, inr, true, false, [], ◌∷◌, ◌++◌, Bool-cases}
use cloud_init_rs.Prelude.Texts.{Text, lit}
use cloud_init_rs.Result.{Result, ok, err, Error, IoError, ◌>>◌, map_err, Result-cases}
use cloud_init_rs.Result.{io, command, user_group}
use cloud_init_rs.Result.Steps.{bind-eq-ok, bind-eq-err, map_err-eq-ok, map_err-eq-err, pure-eq-ok}
use cloud_init_rs.Os.{Os, Output, command_of, success}
use cloud_init_rs.Os.Laws.{WriteLaws, RemoveLaws, ChmodLaws}
use cloud_init_rs.Modules.Users.{
  configure_sudo, create_sudoers_dir, validate_sudoers, sudoers_file, sudoers_content,
}

module _ (os : Os) where
  -- The check by `visudo` of a user's file.
  abbrev pub visudo : Text → os.World → Result Output IoError × os.World
  visudo username =
      os.output (command_of (lit "visudo") (lit "-c" ∷ lit "-f" ∷ sudoers_file username ∷ []))

  io_ne :
      {S : Type 0} (m : S → Result (Unit {0}) IoError × S) (s s' : S) (t : Text)
      → map_err m io s ≢ (err (user_group t), s')
  io_ne m s s' t h = let (e, failed, same) = map_err-eq-err m io s h in cc

  create_sudoers_dir_ne :
      (w w' : os.World) (t : Text) → create_sudoers_dir os w ≢ (err (user_group t), w')
  unfolding create_sudoers_dir
  create_sudoers_dir_ne w w' t h = elim (Bool-cases (os.exists (lit "/etc/sudoers.d") w)) [
    | inl there ↦ cc (rw there at h)
    | inr gone ↦ io_ne (os.create_dir_all (lit "/etc/sudoers.d")) w w' t (rw gone at h)
  ]

  -- What `visudo` said of a user's file on the machine `v`, and what was done about it: the file
  -- was removed, and is gone unless that removal failed.
  pub record Refused (username t : Text) (v w' : os.World) : Type 0 where
    pub checked : os.World
    pub said : Output
    pub ran : visudo username v ≡ (ok said, checked)
    pub refused : success said ≡ false
    pub message :
        t ≡ lit "Invalid sudoers configuration for " ++ (username ++ (lit ": " ++ said.stderr))
    pub removed : (os.remove_file (sudoers_file username) checked).1 ≡ w'
    pub gone :
        (os.exists (sudoers_file username) w' ≡ false)
        ⊎ ((e : IoError) × ((os.remove_file (sudoers_file username) checked).0 ≡ err e))

  IsGone :
      (laws : RemoveLaws os) (file : Text) (v w' : os.World)
      → (os.remove_file file v).1 ≡ w'
      → (os.exists file w' ≡ false) ⊎ ((e : IoError) × ((os.remove_file file v).0 ≡ err e))
  IsGone laws file v w' end = elim (Result-cases (os.remove_file file v).0) [
    | inl (u, done) ↦ inl (laws.remove-exists file v w' (λ i. (done i, end i)))
    | inr (e, failed) ↦ inr (e, failed)
  ]

  command_ne :
      (username t : Text) (w w' : os.World)
      → map_err (visudo username) command w ≢ (err (user_group t), w')
  command_ne username t w w' h =
      let (e, failed, same) = map_err-eq-err (visudo username) command w h in cc

  validate_sudoers-eq-err :
      (laws : RemoveLaws os) (username t : Text) (v w' : os.World)
      → validate_sudoers os username v ≡ (err (user_group t), w')
      → Refused username t v w'
  unfolding validate_sudoers judge_sudoers
  validate_sudoers-eq-err laws username t v w' h =
      elim (bind-eq-err (map_err (visudo username) command) (judge_sudoers os username) v h) [
        | inl failed ↦ absurd (command_ne username t v w' failed)
        | inr (o, u, ran, rest) ↦ elim (Bool-cases (success o)) [
          | inl good ↦ absurd (cc (rw good at rest))
          | inr bad ↦
              let end : (os.remove_file (sudoers_file username) u).1 ≡ w' =
                ap (λ (r : Result (Unit {0}) Error × os.World). r.1) (rw bad at rest) in
              record {
                checked = u;
                said = o;
                ran = map_err-eq-ok (visudo username) command v ran;
                refused = bad;
                message = cc (rw bad at rest);
                removed = end;
                gone = IsGone laws (sudoers_file username) u w' end;
              }
        ]
      ]

  -- Where a successful write is read back, a change of mode leaves the contents alone, and a
  -- removed file is gone: when configuring a user's sudo rule fails with a user error, then the
  -- rule was written to the user's file and its mode set, and on that machine, where the file
  -- held the rule, visudo was run on it and refused it; the error has what visudo said; and the
  -- last thing done was to remove the file, which is gone unless this removal failed.
  pub configure_sudo-eq-err :
      (writes : WriteLaws os) (chmods : ChmodLaws os) (removes : RemoveLaws os)
      (username spec t : Text) (w w' : os.World)
      → configure_sudo os username spec w ≡ (err (user_group t), w')
      → (u v : os.World) × (os.write
            (sudoers_file username)
            (sudoers_content username spec)
            (create_sudoers_dir os w).1
          ≡ (ok tt, u))
        × (os.set_permissions (sudoers_file username) 0o440 u ≡ (ok tt, v))
        × (os.read_to_string (sudoers_file username) v ≡ ok (sudoers_content username spec))
        × Refused username t v w'
  unfolding configure_sudo
  configure_sudo-eq-err writes chmods removes username spec t w w' h =
      let file = sudoers_file username in
      let content = sudoers_content username spec in
      let writing = map_err (os.write file content) io in
      let closing = map_err (os.set_permissions file 0o440) io in
      let check = validate_sudoers os username in
      elim (bind-eq-err (create_sudoers_dir os) (λ _. writing >> (closing >> check)) w h) [
        | inl failed ↦ absurd (create_sudoers_dir_ne w w' t failed)
        | inr (u1, w1, made, h1) ↦ elim (bind-eq-err writing (λ _. closing >> check) w1 h1) [
          | inl failed ↦ absurd (io_ne (os.write file content) w1 w' t failed)
          | inr (u2, w2, wrote, h2) ↦ elim (bind-eq-err closing (λ _. check) w2 h2) [
            | inl failed ↦ absurd (io_ne (os.set_permissions file 0o440) w2 w' t failed)
            | inr (u3, w3, closed, h3) ↦
                let stored = map_err-eq-ok (os.write file content) io w1 wrote in
                let set = map_err-eq-ok (os.set_permissions file 0o440) io w2 closed in
                (
                  w2,
                  w3,
                  rw made stored,
                  set,
                  chmods.chmod-read file 0o440 file w2 w3 set
                      ∙ writes.write-read file content w1 w2 stored,
                  validate_sudoers-eq-err removes username t w3 w' h3,
                )
          ]
        ]
      ]

  judge_sudoers-eq-ok :
      (username : Text) (o : Output) (v w' : os.World)
      → judge_sudoers os username o v ≡ (ok tt, w')
      → (success o ≡ true) × (v ≡ w')
  unfolding judge_sudoers
  judge_sudoers-eq-ok username o v w' h = elim (Bool-cases (success o)) [
    | inl good ↦ (good, (pure-eq-ok (rw good at h)).1)
    | inr bad ↦ absurd (cc (rw bad at h))
  ]

  -- Where a successful write is read back and a change of mode leaves the contents alone: when
  -- configuring a user's sudo rule succeeds, visudo was run on the user's file while it held the
  -- rule, and accepted it, and nothing was done after that.
  pub configure_sudo-eq-ok :
      (writes : WriteLaws os) (chmods : ChmodLaws os) (username spec : Text) (w w' : os.World)
      → configure_sudo os username spec w ≡ (ok tt, w')
      → (v : os.World) × (o : Output) × (os.read_to_string (sudoers_file username) v
          ≡ ok (sudoers_content username spec))
        × (visudo username v ≡ (ok o, w'))
        × (success o ≡ true)
  unfolding configure_sudo validate_sudoers
  configure_sudo-eq-ok writes chmods username spec w w' h =
      let file = sudoers_file username in
      let content = sudoers_content username spec in
      let writing = map_err (os.write file content) io in
      let closing = map_err (os.set_permissions file 0o440) io in
      let check = validate_sudoers os username in
      let (u1, w1, made, h1) =
        bind-eq-ok (create_sudoers_dir os) (λ _. writing >> (closing >> check)) w h in
      let (u2, w2, wrote, h2) = bind-eq-ok writing (λ _. closing >> check) w1 h1 in
      let (u3, w3, closed, h3) = bind-eq-ok closing (λ _. check) w2 h2 in
      let (o, w4, ran, h4) =
        bind-eq-ok (map_err (visudo username) command) (judge_sudoers os username) w3 h3 in
      let (good, same) = judge_sudoers-eq-ok username o w4 w' h4 in
      (
        w3,
        o,
        chmods.chmod-read file 0o440 file w2 w3
              (map_err-eq-ok (os.set_permissions file 0o440) io w2 closed)
            ∙ writes.write-read file content w1 w2
                (map_err-eq-ok (os.write file content) io w1 wrote),
        rw same at (map_err-eq-ok (visudo username) command w3 ran),
        good,
      )
