-- ===== src/Network/V1/Convert.antt =====
-- `NetworkConfigV1::to_v2` of src/network/v1.rs, and its maps by name.
use cloud_init_rs.Prelude.{
  ◌≡◌, refl, not, ◌||◌, Option, none, some, List, [], ◌∷◌, ◌++◌, arith, if◌then◌else◌, is_empty,
}
use cloud_init_rs.Prelude.Texts.{Text, ◌==◌, ==_iff}
use cloud_init_rs.Network.Types.{
  HashMap, NameserverConfig, EthernetConfig, NetworkConfig, default_network,
}
use cloud_init_rs.Network.V1.{
  ConfigItem, physical, bond, bridge, vlan, nameserver, route, NetworkConfigV1, convert_physical,
  convert_bond, convert_bridge, convert_vlan,
}

module _ {ℓ} {A : Type ℓ} where
  unfoldable pub get : Text → HashMap A → Option A
  get k [] = none
  get k ((j, v) ∷ m) = if j == k then some v else get k m

  unfoldable pub insert : Text → A → HashMap A → HashMap A
  insert k v [] = (k, v) ∷ []
  insert k v ((j, u) ∷ m) = if j == k then (j, v) ∷ m else (j, u) ∷ insert k v m

  pub get-insert :
      (k j : Text) (v : A) (m : HashMap A)
      → get j (insert k v m) ≡ (if k == j then some v else get j m)
  unfolding get insert
  get-insert k j v [] = refl
  get-insert k j v ((i, u) ∷ m) =
      ground (arith, ==_iff k j, ==_iff i k, ==_iff i j, get-insert k j v m)

-- The variables of the loop.
pub record Conversion : Type 0 where
  pub v2 : NetworkConfig
  pub global_dns : List Text
  pub global_search : List Text

-- One item. A `HashMap` takes the last value of a name.
unfoldable pub convert_item : Conversion → ConfigItem → Conversion
unfolding insert
convert_item s (physical p) = record s {
  v2 = record (s.v2) { ethernets = insert p.name (convert_physical p) s.v2.ethernets };
}
convert_item s (bond b) = record s {
  v2 = record (s.v2) { bonds = insert b.name (convert_bond b) s.v2.bonds };
}
convert_item s (bridge b) = record s {
  v2 = record (s.v2) { bridges = insert b.name (convert_bridge b) s.v2.bridges };
}
convert_item s (vlan v) = record s {
  v2 = record (s.v2) { vlans = insert v.name (convert_vlan v) s.v2.vlans };
}
convert_item s (nameserver n) = record s {
  global_dns = s.global_dns ++ n.address;
  global_search = s.global_search ++ n.search;
}
convert_item s (route r) = s

unfoldable pub convert_items : Conversion → List ConfigItem → Conversion
unfolding convert_item
convert_items s [] = s
convert_items s (i ∷ is) = convert_items (convert_item s i) is

-- `if eth.common.nameservers.addresses.is_empty() { … = global_ns.clone(); }`
unfoldable pub with_global : NameserverConfig → EthernetConfig → EthernetConfig
with_global ns e =
    if is_empty e.common.nameservers.addresses
    then record e { common = record (e.common) { nameservers = ns } }
    else e

-- `for eth in v2.ethernets.values_mut()`
unfoldable pub map_values :
    (EthernetConfig → EthernetConfig) → HashMap EthernetConfig → HashMap EthernetConfig
map_values f [] = []
map_values f ((k, e) ∷ m) = (k, f e) ∷ map_values f m

unfoldable pub finish : Conversion → NetworkConfig
unfolding with_global map_values
finish s =
    if not (is_empty s.global_dns) || not (is_empty s.global_search)
    then record (s.v2) {
      ethernets =
          map_values (with_global (record { addresses = s.global_dns; search = s.global_search }))
            s.v2.ethernets;
    }
    else s.v2

abbrev pub start : Conversion
start = record { v2 = record default_network { version = 2 }; global_dns = []; global_search = [] }

unfoldable pub to_v2 : NetworkConfigV1 → NetworkConfig
unfolding convert_items finish
to_v2 c = finish (convert_items start c.config)
