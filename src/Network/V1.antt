-- ===== src/Network/V1.antt =====
-- src/network/v1.rs: the legacy list of items, and its conversion to version 2.
pub mod Convert
pub mod ByName
pub mod Subnets
mod Tests
use cloud_init_rs.Prelude.{
  ℕ, Bool, true, ◌||◌, Option, none, some, List, [], ◌∷◌, ◌++◌, map, if◌then◌else◌,
}
use cloud_init_rs.Prelude.Texts.{Text, lit, ◌==◌, contains_char, decimal}
use cloud_init_rs.Network.Types.{
  RouteConfig, InterfaceCommon, EthernetConfig, BondConfig, BridgeConfig, VlanConfig, default_route,
  default_match, default_common, default_bond_parameters, default_bridge_parameters,
}
use cloud_init_rs.Network.Netmask.{netmask_to_prefix}

pub record RouteConfigV1 : Type 0 where
  pub destination : Option Text
  pub gateway : Option Text
  pub metric : Option ℕ
  pub network : Option Text
  pub netmask : Option Text

pub record SubnetConfig : Type 0 where
  pub subnet_type : Text
  pub address : Option Text
  pub netmask : Option Text
  pub gateway : Option Text
  pub dns_nameservers : List Text
  pub dns_search : List Text
  pub routes : List RouteConfigV1

pub record PhysicalConfig : Type 0 where
  pub name : Text
  pub mac_address : Option Text
  pub mtu : Option ℕ
  pub subnets : List SubnetConfig
  pub wakeonlan : Option Bool

pub record BondConfigV1 : Type 0 where
  pub name : Text
  pub bond_interfaces : List Text
  pub bond_mode : Option Text
  pub bond_miimon : Option ℕ
  pub bond_xmit_hash_policy : Option Text
  pub mtu : Option ℕ
  pub mac_address : Option Text
  pub subnets : List SubnetConfig

pub record BridgeConfigV1 : Type 0 where
  pub name : Text
  pub bridge_interfaces : List Text
  pub bridge_stp : Option Bool
  pub bridge_fd : Option ℕ
  pub mtu : Option ℕ
  pub subnets : List SubnetConfig

pub record VlanConfigV1 : Type 0 where
  pub name : Text
  pub vlan_id : ℕ
  pub vlan_link : Text
  pub mtu : Option ℕ
  pub subnets : List SubnetConfig

pub record NameserverConfigV1 : Type 0 where
  pub address : List Text
  pub search : List Text

pub data ConfigItem : Type 0 where
  physical : PhysicalConfig → ConfigItem
  bond : BondConfigV1 → ConfigItem
  bridge : BridgeConfigV1 → ConfigItem
  vlan : VlanConfigV1 → ConfigItem
  nameserver : NameserverConfigV1 → ConfigItem
  route : RouteConfigV1 → ConfigItem

pub record NetworkConfigV1 : Type 0 where
  pub version : ℕ
  pub config : List ConfigItem

-- `format!("{}/{}", addr, netmask_to_prefix(mask))`, or the address alone
unfoldable pub with_prefix : Text → Option Text → Text
with_prefix addr none = addr
with_prefix addr (some mask) = addr ++ (lit "/" ++ decimal (netmask_to_prefix mask))

-- `netmask_to_prefix(mask)` is a method of no state, and the destination falls back to the network,
-- and then to `default`.
unfoldable pub route_dest : RouteConfigV1 → Text
unfolding with_prefix
route_dest r = elim r.destination [
  | some dest ↦ dest
  | none ↦ elim r.network [ some net ↦ with_prefix net r.netmask | none ↦ lit "default" ]
]

unfoldable pub convert_route : RouteConfigV1 → RouteConfig
unfolding route_dest
convert_route r = record default_route { to = route_dest r; via = r.gateway; metric = r.metric }

-- The kinds of subnet that `apply_subnets` tells apart.
pub data SubnetKind : Type 0 where
  dhcp4 dhcp6 static slaac stateful other : SubnetKind

unfoldable pub subnet_kind : Text → SubnetKind
unfolding lit ◌==◌
subnet_kind t =
    if t == lit "dhcp" || t == lit "dhcp4"
    then dhcp4
    else if t == lit "dhcp6"
    then dhcp6
    else if t == lit "static" || t == lit "static4" || t == lit "static6"
    then static
    else if t == lit "ipv6_slaac" || t == lit "ipv6_dhcpv6-stateless"
    then slaac
    else if t == lit "ipv6_dhcpv6-stateful"
    then stateful
    else other

unfoldable pub apply_address : SubnetConfig → InterfaceCommon → InterfaceCommon
unfolding with_prefix
apply_address sub c = elim sub.address [
  | none ↦ c
  | some addr ↦ record c { addresses = c.addresses ++ (with_prefix addr sub.netmask ∷ []) }
]

-- An address with a colon is one of IPv6.
unfoldable pub apply_gateway : SubnetConfig → InterfaceCommon → InterfaceCommon
unfolding contains_char
apply_gateway sub c = elim sub.gateway [
  | none ↦ c
  | some gw ↦
      if contains_char gw b':'
      then record c { gateway6 = some gw }
      else record c { gateway4 = some gw }
]

-- The `match` on the type of the subnet.
unfoldable pub apply_kind : SubnetKind → SubnetConfig → InterfaceCommon → InterfaceCommon
unfolding apply_address apply_gateway
apply_kind dhcp4 sub c = record c { dhcp4 = some true }
apply_kind dhcp6 sub c = record c { dhcp6 = some true }
apply_kind static sub c = apply_gateway sub (apply_address sub c)
apply_kind slaac sub c = record c { accept_ra = some true }
apply_kind stateful sub c = record c { dhcp6 = some true }
apply_kind other sub c = c

-- An extension by nothing changes nothing, so the tests on emptiness are not repeated.
unfoldable pub apply_dns : SubnetConfig → InterfaceCommon → InterfaceCommon
apply_dns sub c = record c {
  nameservers = record {
    addresses = c.nameservers.addresses ++ sub.dns_nameservers;
    search = c.nameservers.search ++ sub.dns_search;
  };
}

unfoldable pub apply_routes : SubnetConfig → InterfaceCommon → InterfaceCommon
unfolding convert_route
apply_routes sub c = record c { routes = c.routes ++ map convert_route sub.routes }

-- One round of the loop of `apply_subnets`.
unfoldable pub apply_subnet : InterfaceCommon → SubnetConfig → InterfaceCommon
unfolding apply_kind apply_dns apply_routes subnet_kind
apply_subnet c sub =
    apply_routes sub (apply_dns sub (apply_kind (subnet_kind sub.subnet_type) sub c))

unfoldable pub apply_subnets : InterfaceCommon → List SubnetConfig → InterfaceCommon
unfolding apply_subnet
apply_subnets c [] = c
apply_subnets c (sub ∷ subs) = apply_subnets (apply_subnet c sub) subs

unfoldable pub convert_physical : PhysicalConfig → EthernetConfig
unfolding apply_subnets
convert_physical p = record {
  common = apply_subnets (record default_common { mtu = p.mtu; wakeonlan = p.wakeonlan }) p.subnets;
  match_config = elim p.mac_address [
    | none ↦ none
    | some mac ↦ some (record default_match { macaddress = some mac })
  ];
}

unfoldable pub convert_bond : BondConfigV1 → BondConfig
unfolding apply_subnets
convert_bond b = record {
  common =
      apply_subnets (record default_common { mtu = b.mtu; macaddress = b.mac_address }) b.subnets;
  interfaces = b.bond_interfaces;
  parameters = some (record default_bond_parameters {
    mode = b.bond_mode;
    mii_monitor_interval = b.bond_miimon;
    transmit_hash_policy = b.bond_xmit_hash_policy;
  });
}

unfoldable pub convert_bridge : BridgeConfigV1 → BridgeConfig
unfolding apply_subnets
convert_bridge b = record {
  common = apply_subnets (record default_common { mtu = b.mtu }) b.subnets;
  interfaces = b.bridge_interfaces;
  parameters =
      some (record default_bridge_parameters { stp = b.bridge_stp; forward_delay = b.bridge_fd });
}

unfoldable pub convert_vlan : VlanConfigV1 → VlanConfig
unfolding apply_subnets
convert_vlan v = record {
  common = apply_subnets (record default_common { mtu = v.mtu }) v.subnets;
  id = v.vlan_id;
  link = v.vlan_link;
}
