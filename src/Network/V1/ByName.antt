-- ===== src/Network/V1/ByName.antt =====
-- What the conversion holds under each name: the last item of that name, and the nameservers.
use cloud_init_rs.Prelude.{
  ◌≡◌, refl, sym, ap, ◌∙◌, Bool, true, false, not, ◌||◌, Option, none, some, List, [], ◌∷◌, ◌++◌,
  append-nil, append_assoc, arith, if◌then◌else◌, is_empty,
}
use cloud_init_rs.Prelude.Texts.{Text, ◌==◌}
use mathlib.Core.Option
use cloud_init_rs.Network.Types.{HashMap, EthernetConfig, NetworkConfig}
use cloud_init_rs.Network.V1.{
  PhysicalConfig, BondConfigV1, ConfigItem, physical, bond, bridge, vlan, nameserver, route,
  NetworkConfigV1, convert_physical, convert_bond,
}
use cloud_init_rs.Network.V1.Convert.{
  get, get-insert, Conversion, convert_item, convert_items, with_global, map_values, finish, start,
  to_v2,
}

-- The item that counts for a name: the last, or what was there before.
abbrev pub last_physical : Text → List ConfigItem → Option PhysicalConfig → Option PhysicalConfig
last_physical n [] before = before
last_physical n (physical p ∷ is) before =
    last_physical n is (if p.name == n then some p else before)
last_physical n (_ ∷ is) before = last_physical n is before

abbrev pub last_bond : Text → List ConfigItem → Option BondConfigV1 → Option BondConfigV1
last_bond n [] before = before
last_bond n (bond b ∷ is) before = last_bond n is (if b.name == n then some b else before)
last_bond n (_ ∷ is) before = last_bond n is before

-- All the nameservers and search domains of the nameserver items, in order.
abbrev pub all_dns : List ConfigItem → List Text
all_dns [] = []
all_dns (nameserver n ∷ is) = n.address ++ all_dns is
all_dns (_ ∷ is) = all_dns is

abbrev pub all_search : List ConfigItem → List Text
all_search [] = []
all_search (nameserver n ∷ is) = n.search ++ all_search is
all_search (_ ∷ is) = all_search is

items_ethernets :
    (n : Text) (s : Conversion) (is : List ConfigItem) (before : Option PhysicalConfig)
    → get n s.v2.ethernets ≡ Option.map convert_physical before
    → get n (convert_items s is).v2.ethernets
      ≡ Option.map convert_physical (last_physical n is before)
unfolding convert_items convert_item
items_ethernets n s [] before h = h
items_ethernets n s (physical p ∷ is) before h =
    items_ethernets n (convert_item s (physical p)) is (if p.name == n then some p else before)
      (rw get-insert (ground arith))
items_ethernets n s (bond b ∷ is) before h = items_ethernets n (convert_item s (bond b)) is before h
items_ethernets n s (bridge b ∷ is) before h =
    items_ethernets n (convert_item s (bridge b)) is before h
items_ethernets n s (vlan v ∷ is) before h = items_ethernets n (convert_item s (vlan v)) is before h
items_ethernets n s (nameserver a ∷ is) before h =
    items_ethernets n (convert_item s (nameserver a)) is before h
items_ethernets n s (route r ∷ is) before h =
    items_ethernets n (convert_item s (route r)) is before h

items_bonds :
    (n : Text) (s : Conversion) (is : List ConfigItem) (before : Option BondConfigV1)
    → get n s.v2.bonds ≡ Option.map convert_bond before
    → get n (convert_items s is).v2.bonds ≡ Option.map convert_bond (last_bond n is before)
unfolding convert_items convert_item
items_bonds n s [] before h = h
items_bonds n s (bond b ∷ is) before h =
    items_bonds n (convert_item s (bond b)) is (if b.name == n then some b else before)
      (rw get-insert (ground arith))
items_bonds n s (physical p ∷ is) before h = items_bonds n (convert_item s (physical p)) is before h
items_bonds n s (bridge b ∷ is) before h = items_bonds n (convert_item s (bridge b)) is before h
items_bonds n s (vlan v ∷ is) before h = items_bonds n (convert_item s (vlan v)) is before h
items_bonds n s (nameserver a ∷ is) before h =
    items_bonds n (convert_item s (nameserver a)) is before h
items_bonds n s (route r ∷ is) before h = items_bonds n (convert_item s (route r)) is before h

items_dns :
    (s : Conversion) (is : List ConfigItem)
    → ((convert_items s is).global_dns ≡ s.global_dns ++ all_dns is)
      × ((convert_items s is).global_search ≡ s.global_search ++ all_search is)
unfolding convert_items convert_item
items_dns s [] = (sym (append-nil _), sym (append-nil _))
items_dns s (nameserver a ∷ is) =
    let (dns, domains) = items_dns (convert_item s (nameserver a)) is in
    (
      dns ∙ append_assoc s.global_dns a.address (all_dns is),
      domains ∙ append_assoc s.global_search a.search (all_search is),
    )
items_dns s (physical p ∷ is) = items_dns (convert_item s (physical p)) is
items_dns s (bond b ∷ is) = items_dns (convert_item s (bond b)) is
items_dns s (bridge b ∷ is) = items_dns (convert_item s (bridge b)) is
items_dns s (vlan v ∷ is) = items_dns (convert_item s (vlan v)) is
items_dns s (route r ∷ is) = items_dns s is

get-map_values :
    (f : EthernetConfig → EthernetConfig) (n : Text) (m : HashMap EthernetConfig)
    → get n (map_values f m) ≡ Option.map f (get n m)
unfolding get map_values
get-map_values f n [] = refl
get-map_values f n ((k, e) ∷ m) = ground (arith, get-map_values f n m)

map_id_eq {ℓ} : {A : Type ℓ} (o : Option A) → Option.map (λ a. a) o ≡ o
map_id_eq none = refl
map_id_eq (some a) = refl

-- What the global nameservers make of an ethernet interface: they are given to one without any.
abbrev pub completed : List ConfigItem → EthernetConfig → EthernetConfig
completed is e =
    if not (is_empty (all_dns is)) || not (is_empty (all_search is))
    then (if is_empty e.common.nameservers.addresses
        then record e {
          common = record (e.common) {
            nameservers = record { addresses = all_dns is; search = all_search is };
          };
        }
        else e)
    else e

choose_ethernets :
    (b : Bool) (f : EthernetConfig → EthernetConfig) (n : Text) (v : NetworkConfig)
    → get n (if b then record v { ethernets = map_values f v.ethernets } else v).ethernets
      ≡ Option.map (λ e. if b then f e else e) (get n v.ethernets)
choose_ethernets true f n v = get-map_values f n v.ethernets
choose_ethernets false f n v = sym (map_id_eq (get n v.ethernets))

finish_ethernets :
    (n : Text) (s : Conversion) (is : List ConfigItem)
    → s.global_dns ≡ all_dns is
    → s.global_search ≡ all_search is
    → get n (finish s).ethernets ≡ Option.map (completed is) (get n s.v2.ethernets)
unfolding finish with_global
finish_ethernets n s is dns domains =
    rw (dns, domains, finish)
      (choose_ethernets (not (is_empty (all_dns is)) || not (is_empty (all_search is)))
        (with_global (record { addresses = all_dns is; search = all_search is })) n s.v2)

-- Under every name, the converted ethernets hold the conversion of the last physical item of
-- that name, where an interface without nameserver addresses of its own takes all the
-- nameservers and search domains of the nameserver items, if there are any; or nothing if there
-- is no such item.
pub to_v2-ethernets :
    (c : NetworkConfigV1) (n : Text)
    → get n (to_v2 c).ethernets
      ≡ Option.map
          (completed c.config)
          (Option.map convert_physical (last_physical n c.config none))
unfolding to_v2 get
to_v2-ethernets c n =
    let (dns, domains) = items_dns start c.config in
    finish_ethernets n (convert_items start c.config) c.config dns domains
    ∙ ap (Option.map (completed c.config)) (items_ethernets n start c.config none refl)

choose_bonds :
    (b : Bool) (e : HashMap EthernetConfig) (v : NetworkConfig)
    → (if b then record v { ethernets = e } else v).bonds ≡ v.bonds
choose_bonds true e v = refl
choose_bonds false e v = refl

-- Under every name, the converted bonds hold the conversion of the last bond item of that name,
-- whatever nameserver items there are, or nothing if there is no such item.
pub to_v2-bonds :
    (c : NetworkConfigV1) (n : Text)
    → get n (to_v2 c).bonds ≡ Option.map convert_bond (last_bond n c.config none)
unfolding to_v2 finish get
to_v2-bonds c n =
    ap (get n) (choose_bonds _ _ (convert_items start c.config).v2)
    ∙ items_bonds n start c.config none refl
