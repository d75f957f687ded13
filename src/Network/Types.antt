-- ===== src/Network/Types.antt =====
-- The data of src/network/mod.rs (version 2, as Netplan has it). A `HashMap` is a list of entries
-- with distinct keys, in the order in which the map is gone through.
use cloud_init_rs.Prelude.{ℕ, Bool, not, ◌||◌, Option, none, List, [], ◌++◌, map, is_empty}
use cloud_init_rs.Prelude.Texts.{Text}

abbrev pub HashMap {ℓ} : Type ℓ → Type ℓ
HashMap A = List (Text × A)

pub record NameserverConfig : Type 0 where
  pub addresses : List Text
  pub search : List Text

pub record RouteConfig : Type 0 where
  pub to : Text
  pub via : Option Text
  pub metric : Option ℕ
  pub route_type : Option Text
  pub table : Option ℕ
  pub on_link : Option Bool

pub record RoutingPolicyConfig : Type 0 where
  pub from : Option Text
  pub to : Option Text
  pub table : Option ℕ
  pub priority : Option ℕ
  pub mark : Option ℕ

pub record MatchConfig : Type 0 where
  pub macaddress : Option Text
  pub driver : Option Text
  pub name : Option Text

pub record InterfaceCommon : Type 0 where
  pub dhcp4 : Option Bool
  pub dhcp6 : Option Bool
  pub addresses : List Text
  pub gateway4 : Option Text
  pub gateway6 : Option Text
  pub nameservers : NameserverConfig
  pub mtu : Option ℕ
  pub routes : List RouteConfig
  pub routing_policy : List RoutingPolicyConfig
  pub macaddress : Option Text
  pub set_name : Option Text
  pub wakeonlan : Option Bool
  pub accept_ra : Option Bool
  pub optional : Option Bool

pub record EthernetConfig : Type 0 where
  pub common : InterfaceCommon
  pub match_config : Option MatchConfig

pub record BondParameters : Type 0 where
  pub mode : Option Text
  pub mii_monitor_interval : Option ℕ
  pub primary : Option Text
  pub transmit_hash_policy : Option Text
  pub lacp_rate : Option Text
  pub arp_interval : Option ℕ
  pub arp_ip_targets : List Text

pub record BondConfig : Type 0 where
  pub common : InterfaceCommon
  pub interfaces : List Text
  pub parameters : Option BondParameters

pub record BridgeParameters : Type 0 where
  pub ageing_time : Option ℕ
  pub forward_delay : Option ℕ
  pub hello_time : Option ℕ
  pub max_age : Option ℕ
  pub priority : Option ℕ
  pub stp : Option Bool

pub record BridgeConfig : Type 0 where
  pub common : InterfaceCommon
  pub interfaces : List Text
  pub parameters : Option BridgeParameters

pub record VlanConfig : Type 0 where
  pub common : InterfaceCommon
  pub id : ℕ
  pub link : Text

pub record NetworkConfig : Type 0 where
  pub version : ℕ
  pub ethernets : HashMap EthernetConfig
  pub bonds : HashMap BondConfig
  pub bridges : HashMap BridgeConfig
  pub vlans : HashMap VlanConfig
  pub renderer : Option Text

-- The values of `#[derive(Default)]`.
abbrev pub default_nameservers : NameserverConfig
default_nameservers = record { addresses = []; search = [] }

abbrev pub default_route : RouteConfig
default_route = record {
  to = [];
  via = none;
  metric = none;
  route_type = none;
  table = none;
  on_link = none;
}

abbrev pub default_match : MatchConfig
default_match = record { macaddress = none; driver = none; name = none }

abbrev pub default_common : InterfaceCommon
default_common = record {
  dhcp4 = none;
  dhcp6 = none;
  addresses = [];
  gateway4 = none;
  gateway6 = none;
  nameservers = default_nameservers;
  mtu = none;
  routes = [];
  routing_policy = [];
  macaddress = none;
  set_name = none;
  wakeonlan = none;
  accept_ra = none;
  optional = none;
}

abbrev pub default_bond_parameters : BondParameters
default_bond_parameters = record {
  mode = none;
  mii_monitor_interval = none;
  primary = none;
  transmit_hash_policy = none;
  lacp_rate = none;
  arp_interval = none;
  arp_ip_targets = [];
}

abbrev pub default_bridge_parameters : BridgeParameters
default_bridge_parameters = record {
  ageing_time = none;
  forward_delay = none;
  hello_time = none;
  max_age = none;
  priority = none;
  stp = none;
}

abbrev pub default_network : NetworkConfig
default_network = record {
  version = 0;
  ethernets = [];
  bonds = [];
  bridges = [];
  vlans = [];
  renderer = none;
}

-- `NetworkConfig::has_interfaces`
unfoldable pub has_interfaces : NetworkConfig → Bool
has_interfaces c =
    not (is_empty c.ethernets)
    || not (is_empty c.bonds)
    || not (is_empty c.bridges)
    || not (is_empty c.vlans)

-- `NetworkConfig::interface_names`
unfoldable pub interface_names : NetworkConfig → List Text
interface_names c =
    map (λ e. e.0) c.ethernets
    ++ (map (λ e. e.0) c.bonds ++ (map (λ e. e.0) c.bridges ++ map (λ e. e.0) c.vlans))
