-- ===== src/Modules/SshKeys/Written.antt =====
-- What the file of authorized keys holds.
use cloud_init_rs.Prelude.{◌≡◌, ap, ◌∙◌, List, [], ◌∷◌, ◌++◌}
use cloud_init_rs.Prelude.Texts.{Text, lit, join}
use cloud_init_rs.Result.{Result, ok, Error, ◌>>◌, pure, map_err}
use cloud_init_rs.Result.{io, command}
use cloud_init_rs.Result.Steps.{bind-eq-ok, map_err-eq-ok, pure-eq-ok}
use cloud_init_rs.Os.{Os, command_of}
use cloud_init_rs.Os.Laws.{WriteLaws, ChmodLaws, ChownLaws}
use cloud_init_rs.State.Paths.{path_join}
use cloud_init_rs.Modules.SshKeys.{
  configure_user_ssh_keys, configure_in_home, get_user_home, change_ownership, create_ssh_dir,
}

abbrev pub keys_file : Text → Text
keys_file home = path_join (path_join home (lit ".ssh")) (lit "authorized_keys")

module _ (os : Os) (writes : WriteLaws os) (chmods : ChmodLaws os) (chowns : ChownLaws os) where
  change_ownership-read :
      (path username q : Text) (w w' : os.World)
      → change_ownership os path username w ≡ (ok tt, w')
      → os.read_to_string q w' ≡ os.read_to_string q w
  unfolding change_ownership
  change_ownership-read path username q w w' h =
      let chown = os.output (command_of (lit "chown") (username ∷ path ∷ [])) in
      let (o, v, ran, end) = bind-eq-ok (map_err chown command) (λ _. pure tt) w h in
      rw (← (pure-eq-ok end).1)
        (chowns.chown-read (username ∷ path ∷ []) q w v (ok o) (map_err-eq-ok chown command w ran))

  configure_in_home-read :
      (home username : Text) (keys : List Text) (w w' : os.World)
      → configure_in_home os home username keys w ≡ (ok tt, w')
      → os.read_to_string (keys_file home) w' ≡ ok (join (lit "\n") keys ++ lit "\n")
  unfolding configure_in_home
  configure_in_home-read home username keys w w' h =
      let dir = path_join home (lit ".ssh") in
      let file = keys_file home in
      let content = join (lit "\n") keys ++ lit "\n" in
      let writing = map_err (os.write file content) io in
      let closing = map_err (os.set_permissions file 0o600) io in
      let own = change_ownership os in
      let (u1, w1, made, h1) =
        bind-eq-ok (create_ssh_dir os dir)
          (λ _. writing >> (closing >> (own dir username >> own file username))) w h in
      let (u2, w2, wrote, h2) =
        bind-eq-ok writing (λ _. closing >> (own dir username >> own file username)) w1 h1 in
      let (u3, w3, closed, h3) =
        bind-eq-ok closing (λ _. own dir username >> own file username) w2 h2 in
      let (u4, w4, owned, h4) = bind-eq-ok (own dir username) (λ _. own file username) w3 h3 in
      change_ownership-read file username file w4 w' h4
      ∙ (change_ownership-read dir username file w3 w4 owned
          ∙ (chmods.chmod-read file 0o600 file w2 w3
                (map_err-eq-ok (os.set_permissions file 0o600) io w2 closed)
              ∙ writes.write-read file content w1 w2
                  (map_err-eq-ok (os.write file content) io w1 wrote)))

  -- Where a successful write is read back, and a change of mode or owner leaves the contents
  -- alone: when configuring one or more keys for a user succeeds, the user's home directory was
  -- found, and authorized_keys in its directory .ssh holds exactly the keys, one on each line.
  pub configure_user_ssh_keys-read :
      (username key : Text) (keys : List Text) (w w' : os.World)
      → configure_user_ssh_keys os username (key ∷ keys) w ≡ (ok tt, w')
      → (home : Text) × ((get_user_home os username w).0 ≡ ok home)
        × (os.read_to_string (keys_file home) w' ≡ ok (join (lit "\n") (key ∷ keys) ++ lit "\n"))
  unfolding configure_user_ssh_keys
  configure_user_ssh_keys-read username key keys w w' h =
      let (home, v, found, rest) =
        bind-eq-ok (get_user_home os username)
          (λ home. configure_in_home os home username (key ∷ keys)) w h in
      (
        home,
        ap (λ (r : Result Text Error × os.World). r.0) found,
        configure_in_home-read home username (key ∷ keys) v w' rest,
      )
