-- ===== src/Network/V1/Tests.antt =====
-- The conversion of a small configuration.
use cloud_init_rs.Prelude.{◌≤◌, ◌≡◌, refl, none, some, [], ◌∷◌, arith}
use cloud_init_rs.Prelude.Texts.{lit}
use cloud_init_rs.Network.Types.{default_common}
use mathlib.Core.Option
use cloud_init_rs.Network.V1.{
  SubnetConfig, PhysicalConfig, BondConfigV1, physical, bond, nameserver, NetworkConfigV1,
  convert_physical, convert_bond,
}
use cloud_init_rs.Network.V1.Convert.{get, to_v2}
use cloud_init_rs.Network.V1.ByName.{
  completed, last_physical, last_bond, to_v2-ethernets, to_v2-bonds,
}
use cloud_init_rs.Network.V1.Subnets.{Applied, convert_physical-Applied}
use cloud_init_rs.Network.Netmask.{netmask_to_prefix, prefix_to_netmask, parse_u8}
use cloud_init_rs.Network.Netmask.RoundTrip.{
  netmask_to_prefix-prefix_to_netmask, netmask_to_prefix-le,
}

abbrev static_subnet : SubnetConfig
static_subnet = record {
  subnet_type = lit "static";
  address = some (lit "10.0.0.2");
  netmask = some (lit "255.255.0.0");
  gateway = none;
  dns_nameservers = lit "10.0.0.1" ∷ [];
  dns_search = [];
  routes = [];
}

abbrev eth0 : PhysicalConfig
eth0 = record {
  name = lit "eth0";
  mac_address = none;
  mtu = some 1400;
  subnets = static_subnet ∷ [];
  wakeonlan = none;
}

abbrev bond0 : BondConfigV1
bond0 = record {
  name = lit "bond0";
  bond_interfaces = lit "eth1" ∷ [];
  bond_mode = none;
  bond_miimon = some 100;
  bond_xmit_hash_policy = none;
  mtu = none;
  mac_address = none;
  subnets = static_subnet ∷ [];
}

abbrev two_items : NetworkConfigV1
two_items = record {
  version = 1;
  config =
      physical eth0
      ∷ bond bond0
      ∷ nameserver (record { address = lit "1.1.1.1" ∷ []; search = [] })
      ∷ [];
}

to_v2-ethernets_example :
    get (lit "eth0") (to_v2 two_items).ethernets
    ≡ Option.map
        (completed two_items.config)
        (Option.map convert_physical (last_physical (lit "eth0") two_items.config none))
to_v2-ethernets_example = to_v2-ethernets two_items (lit "eth0")

to_v2-bonds_example :
    get (lit "bond0") (to_v2 two_items).bonds
    ≡ Option.map convert_bond (last_bond (lit "bond0") two_items.config none)
to_v2-bonds_example = to_v2-bonds two_items (lit "bond0")

convert_physical-Applied_example :
    Applied
      (record default_common { mtu = some 1400; wakeonlan = none })
      (static_subnet ∷ [])
      (convert_physical eth0).common
convert_physical-Applied_example = convert_physical-Applied eth0

netmask_to_prefix-prefix_to_netmask_example : netmask_to_prefix (prefix_to_netmask 20) ≡ 20
netmask_to_prefix-prefix_to_netmask_example = netmask_to_prefix-prefix_to_netmask 20 (omega arith)

netmask_to_prefix-le_example : netmask_to_prefix (lit "255.255.0.0") ≤ 32
unfolding parse_u8 lit
netmask_to_prefix-le_example = netmask_to_prefix-le (lit "255.255.0.0") refl
