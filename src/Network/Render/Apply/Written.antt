-- ===== src/Network/Render/Apply/Written.antt =====
-- What stands on the machine when the network manager is told to reload.
use mathlib.Core.List.{append_cancel_left}
use cloud_init_rs.Prelude.{
  ℕ, ◌≤◌, ◌≡◌, refl, sym, ap, subst, ◌∙◌, ◌≢◌, inl, inr, false, Option, some, List, [], ◌∷◌, map,
  All, arith, eqb, eqb_iff, Bool-cases, Option-cases,
}
use cloud_init_rs.Prelude.Texts.{Text, lit}
use cloud_init_rs.Prelude.Texts.Decimal.{leading}
use cloud_init_rs.Result.{ok, ◌>>◌, for_each, map_err}
use cloud_init_rs.Result.{io}
use cloud_init_rs.Result.Steps.{bind-eq-ok, map_err-eq-ok, pure-eq-ok}
use cloud_init_rs.Os.{Os}
use cloud_init_rs.Os.Laws.{WriteLaws, ChmodLaws, KeepLaws}
use cloud_init_rs.State.Paths.{path_join, path_parent, is_absolute, ends_with_slash}
use cloud_init_rs.State.Paths.Laws.{IsDirectory, path_join_relative}
use cloud_init_rs.State.Semaphore.{create_parent}
use cloud_init_rs.Network.Types.{NetworkConfig}
use cloud_init_rs.Network.Render.{networkd, RenderedFile}
use cloud_init_rs.Network.Render.Networkd.{render}
use cloud_init_rs.Network.Render.Networkd.Files.{interfaces, all_names}
use cloud_init_rs.Network.Render.Networkd.Distinct.{
  Distinct, All-map, all_names-le, paths-eq-names, render-Distinct,
}
use cloud_init_rs.Network.Render.Apply.{
  choose, output_dir, reload, write_file, render_with, apply_network_config,
}

All-of_map {ℓ κ μ} :
    {A : Type ℓ} {B : Type κ} (P : B → Type μ) (f : A → B) (xs : List A)
    → All P (map f xs)
    → All (λ a. P (f a)) xs
All-of_map P f [] h = tt
All-of_map P f (x ∷ xs) (p, h) = (p, All-of_map P f xs h)

-- A relative name is joined to one path only.
path_join_ne :
    (dir p q : Text)
    → IsDirectory dir
    → is_absolute p ≡ false
    → is_absolute q ≡ false
    → p ≢ q
    → path_join dir q ≢ path_join dir p
path_join_ne dir p q d r s ne e = ne (
    sym (
      append_cancel_left (b'/' ∷ []) q p (
        append_cancel_left dir _ _
          (sym (path_join_relative dir q d s) ∙ (e ∙ path_join_relative dir p d r)))))

joined_apart :
    (dir : Text) (f : RenderedFile) (fs : List RenderedFile)
    → IsDirectory dir
    → is_absolute f.path ≡ false
    → All (λ g. is_absolute g.path ≡ false) fs
    → All (λ u. f.path ≢ u) (map (λ g. g.path) fs)
    → All (λ g. path_join dir g.path ≢ path_join dir f.path) fs
joined_apart dir f [] d r rs new = tt
joined_apart dir f (g ∷ gs) d r (s, rs) (ne, new) =
    (path_join_ne dir f.path g.path d r s ne, joined_apart dir f gs d r rs new)

systemd-IsDirectory : IsDirectory (lit "/etc/systemd/network")
unfolding lit ends_with_slash
systemd-IsDirectory = (λ e. cc, refl)

-- A name that begins with a number above 0 does not begin with a slash.
relative_of_number : (t : Text) → 10 ≤ leading 0 t → is_absolute t ≡ false
unfolding is_absolute leading
relative_of_number [] h = refl
relative_of_number (c ∷ t) h = elim (Bool-cases (eqb c b'/')) [
  | inl slash ↦ absurd (omega (arith, rw ((eqb_iff c b'/').0 slash) at h))
  | inr other ↦ other
]

render-relative : (c : NetworkConfig) → All (λ f. is_absolute f.path ≡ false) (render c)
render-relative c =
    All-of_map (λ t. is_absolute t ≡ false) (λ f. f.path) (render c)
      (subst (All (λ t. is_absolute t ≡ false)) (sym (paths-eq-names c))
        (All-map (all_names 10 (interfaces c)) relative_of_number (all_names-le (interfaces c) 10)))

-- Every file of the list stands in the directory and holds its content.
abbrev pub AllWritten : (os : Os) → Text → List RenderedFile → os.World → Type 0
AllWritten os dir files w =
    All (λ f. os.read_to_string (path_join dir f.path) w ≡ ok f.content) files

module _ (os : Os) (writes : WriteLaws os) (chmods : ChmodLaws os) (keeps : KeepLaws os) where
  create_parent-read :
      (path q : Text) (w w' : os.World)
      → create_parent os path w ≡ (ok tt, w')
      → os.read_to_string q w' ≡ os.read_to_string q w
  unfolding create_parent
  create_parent-read path q w w' h = elim (Option-cases (path_parent path)) [
    | inl top ↦ ap (λ v. os.read_to_string q v) (sym (pure-eq-ok (rw (top, create_parent) at h)).1)
    | inr (p, e) ↦
        keeps.mkdir-read p q w w'
          (map_err-eq-ok (os.create_dir_all p) io w (rw (e, create_parent) at h))
  ]

  -- The file that a successful `write_file` is about holds its content, and no other changes.
  write_file-read :
      (dir : Text) (f : RenderedFile) (w w' : os.World)
      → write_file os dir f w ≡ (ok tt, w')
      → (os.read_to_string (path_join dir f.path) w' ≡ ok f.content)
        × ((q : Text) → path_join dir f.path ≢ q → os.read_to_string q w' ≡ os.read_to_string q w)
  unfolding write_file
  write_file-read dir f w w' h =
      let path = path_join dir f.path in
      let writing = map_err (os.write path f.content) io in
      let closing = map_err (os.set_permissions path f.mode) io in
      let (u, w1, made, h1) = bind-eq-ok (create_parent os path) (λ _. writing >> closing) w h in
      let (v, w2, wrote, h2) = bind-eq-ok writing (λ _. closing) w1 h1 in
      let stored = map_err-eq-ok (os.write path f.content) io w1 wrote in
      let set = map_err-eq-ok (os.set_permissions path f.mode) io w2 h2 in
      (
        chmods.chmod-read path f.mode path w2 w' set
            ∙ writes.write-read path f.content w1 w2 stored,
        λ q ne.
            chmods.chmod-read path f.mode q w2 w' set
            ∙ (keeps.write-read_ne path f.content q w1 w2 stored ne
                ∙ create_parent-read path q w w1 made),
      )

  for_each-write_file-read :
      (dir : Text) (files : List RenderedFile) (w w' : os.World)
      → IsDirectory dir
      → All (λ f. is_absolute f.path ≡ false) files
      → Distinct (map (λ f. f.path) files)
      → for_each (write_file os dir) files w ≡ (ok tt, w')
      → AllWritten os dir files w'
        × ((q : Text)
            → All (λ f. path_join dir f.path ≢ q) files
            → os.read_to_string q w' ≡ os.read_to_string q w)
  unfolding for_each
  for_each-write_file-read dir [] w w' d r u h =
      (tt, λ q none_of. ap (λ v. os.read_to_string q v) (sym (pure-eq-ok h).1))
  for_each-write_file-read dir (f ∷ fs) w w' d (r, rs) (new, u) h =
      let (x, w1, first, others) =
        bind-eq-ok (write_file os dir f) (λ _. for_each (write_file os dir) fs) w h in
      let (here, elsewhere) = write_file-read dir f w w1 first in
      let (later, untouched) = for_each-write_file-read dir fs w1 w' d rs u others in
      (
        (untouched (path_join dir f.path) (joined_apart dir f fs d r rs new) ∙ here, later),
        λ q (ne, nes). untouched q nes ∙ elsewhere q ne,
      )

  -- Where a successful write is read back and leaves other files alone, and making directories
  -- and changing modes leave all contents alone: when the renderer that is chosen is networkd,
  -- and applying the configuration succeeds, then networkd was reloaded, as the last thing done,
  -- on a machine where every file of the rendering stood in /etc/systemd/network and held its
  -- whole content; and the files of the rendering have different names.
  pub apply_network_config-AllWritten :
      (fold uuid : ℕ → Text) (config : NetworkConfig) (hint : Option Text) (w w' : os.World)
      → choose os fold config hint w ≡ some networkd
      → apply_network_config os fold uuid config hint w ≡ (ok tt, w')
      → (v : os.World) × Distinct (map (λ f. f.path) (render config))
        × AllWritten os (lit "/etc/systemd/network") (render config) v
        × (reload os networkd v ≡ (ok tt, w'))
  unfolding apply_network_config output_dir render_with
  apply_network_config-AllWritten fold uuid config hint w w' chosen h =
      let dir = lit "/etc/systemd/network" in
      let (u, v, wrote, reloaded) =
        bind-eq-ok (for_each (write_file os dir) (render config)) (λ _. reload os networkd) w
          (rw chosen at h) in
      (
        v,
        render-Distinct config,
        (for_each-write_file-read dir (render config) w v systemd-IsDirectory
            (render-relative config) (render-Distinct config) wrote).0,
        reloaded,
      )
