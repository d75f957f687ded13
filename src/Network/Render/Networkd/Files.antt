-- ===== src/Network/Render/Networkd/Files.antt =====
-- The files that the networkd renderer makes: their names and permissions, interface by interface.
use mathlib.Core.List.{map-append}
use cloud_init_rs.Prelude.{
  ℕ, ◌+◌, ◌≡◌, refl, ap, Bool, true, false, ◌||◌, Option, none, some, List, [], ◌∷◌, ◌++◌, map,
  append-nil, append_assoc, if◌then◌else◌, is_some,
}
use cloud_init_rs.Prelude.Texts.{Text, lit, decimal}
use cloud_init_rs.Network.Types.{
  HashMap, NetworkConfig, MatchConfig, EthernetConfig, BondConfig, BridgeConfig, VlanConfig,
}
use cloud_init_rs.Network.Render.{RenderedFile}
use cloud_init_rs.Network.Render.Networkd.{
  render, render_all, file, render_link_section, file_name, render_ethernet, render_bond,
  render_bridge, render_vlan, member_files,
}

-- An interface of a configuration, of any of the four kinds.
pub data Interface : Type 0 where
  ethernet : Text → EthernetConfig → Interface
  bond : Text → BondConfig → Interface
  bridge : Text → BridgeConfig → Interface
  vlan : Text → VlanConfig → Interface

abbrev named : {A : Type 0} → (Text → A → Interface) → HashMap A → List Interface
named kind [] = []
named kind ((name, a) ∷ m) = kind name a ∷ named kind m

abbrev pub interfaces : NetworkConfig → List Interface
interfaces c =
    named ethernet c.ethernets
    ++ (named bond c.bonds ++ (named bridge c.bridges ++ named vlan c.vlans))

-- A match that a `.link` file can express.
abbrev pub has_link : Option MatchConfig → Bool
has_link none = false
has_link (some mc) = is_some mc.macaddress || is_some mc.driver

-- The names of the files for the interfaces that the interface `name` joins, from number `i`.
abbrev pub member_names : ℕ → Text → List Text → ℕ → List Text
member_names p name [] i = []
member_names p name (m ∷ ms) i =
    file_name (p + 1) name (b'-' ∷ (decimal i ++ lit ".network")) ∷ member_names p name ms (i + 1)

-- The names of the files for one interface, of priority `p`.
abbrev pub names_of : Interface → ℕ → List Text
names_of (ethernet name e) p =
    file_name p name (lit ".network")
    ∷ (if has_link e.match_config then file_name p name (lit ".link") ∷ [] else [])
names_of (bond name b) p =
    file_name p name (lit ".netdev")
    ∷ file_name p name (lit ".network")
    ∷ member_names p name b.interfaces 0
names_of (bridge name b) p =
    file_name p name (lit ".netdev")
    ∷ file_name p name (lit ".network")
    ∷ member_names p name b.interfaces 0
names_of (vlan name v) p =
    file_name p name (lit ".netdev")
    ∷ file_name p name (lit ".network")
    ∷ file_name (p + 1) v.link (lit "-vlan.network")
    ∷ []

-- The interfaces take the priorities `p`, `p + 10`, and so on.
abbrev pub all_names : ℕ → List Interface → List Text
all_names p [] = []
all_names p (i ∷ is) = names_of i p ++ all_names (p + 10) is

abbrev pub label : RenderedFile → Text × ℕ
label f = (f.path, f.mode)

-- A file that all may read and only its owner may change.
abbrev pub readable : Text → Text × ℕ
readable path = (path, 0o644)

render_ethernet-label :
    (name : Text) (e : EthernetConfig) (p : ℕ)
    → map label (render_ethernet name e p) ≡ map readable (names_of (ethernet name e) p)
unfolding render_ethernet
render_ethernet-label name e p =
    ap (λ l. readable (file_name p name (lit ".network")) ∷ l) (links e.match_config)
  where
    link : Text
    link = file_name p name (lit ".link")

    single :
        (b : Bool) (content : Text)
        → map label (if b then file link content ∷ [] else [])
          ≡ map readable (if b then link ∷ [] else [])
    single true content = refl
    single false content = refl

    links :
        (mc : Option MatchConfig)
        → map label (elim mc [
          | none ↦ []
          | some mc ↦
              if is_some mc.macaddress || is_some mc.driver
              then file link (render_link_section mc e.common) ∷ []
              else []
        ])
          ≡ map readable (if has_link mc then link ∷ [] else [])
    links none = refl
    links (some mc) = single _ _

member_files-label :
    (key name : Text) (p : ℕ) (ms : List Text) (i : ℕ)
    → map label (member_files key name p ms i) ≡ map readable (member_names p name ms i)
unfolding member_files
member_files-label key name p [] i = refl
member_files-label key name p (m ∷ ms) i =
    ap (λ l. readable (file_name (p + 1) name (b'-' ∷ (decimal i ++ lit ".network"))) ∷ l)
      (member_files-label key name p ms (i + 1))

-- The two files of an interface that joins others, before those for its members.
joining : (p : ℕ) (name : Text) → List (Text × ℕ) → List (Text × ℕ)
joining p name l =
    readable (file_name p name (lit ".netdev")) ∷ readable (file_name p name (lit ".network")) ∷ l

render_bond-label :
    (name : Text) (b : BondConfig) (p : ℕ)
    → map label (render_bond name b p) ≡ map readable (names_of (bond name b) p)
unfolding render_bond joining
render_bond-label name b p =
    ap (joining p name) (member_files-label (lit "Bond=") name p b.interfaces 0)

render_bridge-label :
    (name : Text) (b : BridgeConfig) (p : ℕ)
    → map label (render_bridge name b p) ≡ map readable (names_of (bridge name b) p)
unfolding render_bridge joining
render_bridge-label name b p =
    ap (joining p name) (member_files-label (lit "Bridge=") name p b.interfaces 0)

render_vlan-label :
    (name : Text) (v : VlanConfig) (p : ℕ)
    → map label (render_vlan name v p) ≡ map readable (names_of (vlan name v) p)
unfolding render_vlan
render_vlan-label name v p = refl

module _ {A : Type 0} (f : Text → A → ℕ → List RenderedFile) (kind : Text → A → Interface)
    (labels : (name : Text) (a : A) (p : ℕ)
      → map label (f name a p) ≡ map readable (names_of (kind name a) p)) where
  render_all-label :
      (m : HashMap A) (p : ℕ) (rest : List RenderedFile) (later : List Interface)
      → map label rest ≡ map readable (all_names (render_all f m p).1 later)
      → map label ((render_all f m p).0 ++ rest)
        ≡ map readable (all_names p (named kind m ++ later))
  unfolding render_all
  render_all-label [] p rest later h = h
  render_all-label ((name, a) ∷ m) p rest later h =
      let ih = render_all-label m (p + 10) rest later h in
      simp (append_assoc, map-append, labels name a p)
        (ap (λ l. map readable (names_of (kind name a) p) ++ l) (simp map-append at ih))

-- The networkd renderer makes, for each ethernet, then each bond, bridge and VLAN of the
-- configuration, in order and numbered from 10 in steps of ten, files with exactly these names
-- and with mode 0644, each name beginning with the number and the interface's name: for an
-- ethernet one in .network, and one in .link if its match has a MAC address or a driver; for a
-- bond or a bridge one in .netdev and one in .network, and under the next number one in .network
-- with the index of each member; for a VLAN one in .netdev and one in .network, and under the
-- next number the one of its link in -vlan.network.
pub render-names :
    (c : NetworkConfig) → map label (render c) ≡ map readable (all_names 10 (interfaces c))
unfolding render
render-names c =
    let p1 = (render_all render_ethernet c.ethernets 10).1 in
    let p2 = (render_all render_bond c.bonds p1).1 in
    let p3 = (render_all render_bridge c.bridges p2).1 in
    let vlans = (render_all render_vlan c.vlans p3).0 in
    let last : map label vlans ≡ map readable (all_names p3 (named vlan c.vlans)) =
      rw (append-nil, append-nil) at
        (render_all-label render_vlan vlan render_vlan-label c.vlans p3 [] [] refl) in
    render_all-label render_ethernet ethernet render_ethernet-label c.ethernets 10 _ _ (
      render_all-label render_bond bond render_bond-label c.bonds p1 _ _
        (render_all-label render_bridge bridge render_bridge-label c.bridges p2 _ _ last))
