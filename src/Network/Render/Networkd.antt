-- ===== src/Network/Render/Networkd.antt =====
-- src/network/render/networkd.rs
pub mod Files
pub mod Distinct
use cloud_init_rs.Prelude.Texts.{written}
use cloud_init_rs.Prelude.{
  ℕ, ◌+◌, Bool, false, ◌&&◌, ◌||◌, Option, none, some, List, [], ◌∷◌, ◌++◌, ltb, if◌then◌else◌,
  is_some,
}
use cloud_init_rs.Prelude.Texts.{Text, lit, ◌==◌, decimal}
use cloud_init_rs.Network.Types.{
  HashMap, InterfaceCommon, MatchConfig, RouteConfig, RoutingPolicyConfig, EthernetConfig,
  BondConfig, BridgeConfig, VlanConfig, NetworkConfig,
}
use cloud_init_rs.Network.Render.{RenderedFile, for_some, is_true, setting}

-- `format!("{:02}", n)`
unfoldable pub two_digits : ℕ → Text
two_digits n = if ltb n 10 then b'0' ∷ decimal n else decimal n

-- The lines made of each item.
unfoldable pub each {ℓ} : {A : Type ℓ} → (A → List Text) → List A → List Text
each f [] = []
each f (x ∷ xs) = f x ++ each f xs

abbrev yes_no : Bool → Text → Text → Text
yes_no b t f = if b then t else f

unfoldable pub bond_mode_to_networkd : Text → Text
bond_mode_to_networkd mode =
    if mode == lit "balance-rr" || mode == lit "0"
    then lit "balance-rr"
    else if mode == lit "active-backup" || mode == lit "1"
    then lit "active-backup"
    else if mode == lit "balance-xor" || mode == lit "2"
    then lit "balance-xor"
    else if mode == lit "broadcast" || mode == lit "3"
    then lit "broadcast"
    else if mode == lit "802.3ad" || mode == lit "4"
    then lit "802.3ad"
    else if mode == lit "balance-tlb" || mode == lit "5"
    then lit "balance-tlb"
    else if mode == lit "balance-alb" || mode == lit "6"
    then lit "balance-alb"
    else mode

-- The line under `[Match]`: the first of the MAC address, the driver, the name and the interface.
unfoldable pub match_lines : Text → Option MatchConfig → List Text
match_lines name none = setting (lit "Name=") name
match_lines name (some mc) = elim mc.macaddress [
  | some mac ↦ setting (lit "MACAddress=") mac
  | none ↦ elim mc.driver [
    | some drv ↦ setting (lit "Driver=") drv
    | none ↦ elim mc.name [ some n ↦ setting (lit "Name=") n | none ↦ setting (lit "Name=") name ]
  ]
]

unfoldable pub dhcp_lines : InterfaceCommon → List Text
dhcp_lines c =
    if is_true c.dhcp4 && is_true c.dhcp6
    then lit "DHCP=yes" ∷ []
    else if is_true c.dhcp4
    then lit "DHCP=ipv4" ∷ []
    else if is_true c.dhcp6
    then lit "DHCP=ipv6" ∷ []
    else []

unfoldable pub link_lines : InterfaceCommon → List Text
link_lines c =
    if is_some c.mtu || is_some c.macaddress || is_some c.wakeonlan
    then []
      ∷ lit "[Link]"
      ∷ (for_some c.mtu (λ n. setting (lit "MTUBytes=") (decimal n))
          ++ (for_some c.macaddress (setting (lit "MACAddress="))
              ++ for_some c.wakeonlan
                  (λ b. setting (lit "WakeOnLan=") (yes_no b (lit "magic") (lit "off")))))
    else []

unfoldable pub route_lines : RouteConfig → List Text
route_lines r =
    []
    ∷ lit "[Route]"
    ∷ (setting (lit "Destination=") r.to
        ++ (for_some r.via (setting (lit "Gateway="))
            ++ (for_some r.metric (λ n. setting (lit "Metric=") (decimal n))
                ++ for_some r.table (λ n. setting (lit "Table=") (decimal n)))))

unfoldable pub rule_lines : RoutingPolicyConfig → List Text
rule_lines r =
    []
    ∷ lit "[RoutingPolicyRule]"
    ∷ (for_some r.from (setting (lit "From="))
        ++ (for_some r.to (setting (lit "To="))
            ++ (for_some r.table (λ n. setting (lit "Table=") (decimal n))
                ++ for_some r.priority (λ n. setting (lit "Priority=") (decimal n)))))

unfoldable pub render_network_section : Text → InterfaceCommon → Option MatchConfig → Text
unfolding match_lines dhcp_lines link_lines route_lines rule_lines each written
render_network_section name c mc = written (
    lit "[Match]"
    ∷ (match_lines name mc
        ++ ([]
            ∷ lit "[Network]"
            ∷ (dhcp_lines c
                ++ (each (setting (lit "Address=")) c.addresses
                    ++ (for_some c.gateway4 (setting (lit "Gateway="))
                        ++ (for_some c.gateway6 (setting (lit "Gateway="))
                            ++ (each (setting (lit "DNS=")) c.nameservers.addresses
                                ++ (each (setting (lit "Domains=")) c.nameservers.search
                                    ++ (for_some c.accept_ra (λ b.
                                          setting (lit "IPv6AcceptRA=")
                                            (yes_no b (lit "yes") (lit "no")))
                                        ++ (link_lines c
                                            ++ (each route_lines c.routes
                                                ++ each rule_lines c.routing_policy))))))))))))

unfoldable pub render_link_section : MatchConfig → InterfaceCommon → Text
unfolding written
render_link_section mc c = written (
    lit "[Match]"
    ∷ (for_some mc.macaddress (setting (lit "MACAddress="))
        ++ (for_some mc.driver (setting (lit "Driver="))
            ++ ([]
                ∷ lit "[Link]"
                ∷ (for_some c.set_name (setting (lit "Name="))
                    ++ (for_some c.mtu (λ n. setting (lit "MTUBytes=") (decimal n))
                        ++ for_some c.wakeonlan (λ b.
                          setting (lit "WakeOnLan=") (yes_no b (lit "magic") (lit "off")))))))))

-- `{:02}-{name}{suffix}`
abbrev pub file_name : ℕ → Text → Text → Text
file_name priority name suffix = two_digits priority ++ (b'-' ∷ (name ++ suffix))

abbrev pub file : Text → Text → RenderedFile
file path content = record { path = path; content = content; mode = 0o644 }

unfoldable pub link_files : Text → EthernetConfig → ℕ → List RenderedFile
unfolding render_link_section
link_files name e priority = elim e.match_config [
  | none ↦ []
  | some mc ↦
      if is_some mc.macaddress || is_some mc.driver
      then file (file_name priority name (lit ".link")) (render_link_section mc e.common) ∷ []
      else []
]

unfoldable pub render_ethernet : Text → EthernetConfig → ℕ → List RenderedFile
unfolding render_network_section link_files
render_ethernet name e priority =
    file (file_name priority name (lit ".network"))
      (render_network_section name e.common e.match_config)
    ∷ link_files name e priority

unfoldable pub bond_netdev : Text → BondConfig → Text
unfolding bond_mode_to_networkd written
bond_netdev name b = written (
    lit "[NetDev]"
    ∷ (lit "Name=" ++ name)
    ∷ lit "Kind=bond"
    ∷ []
    ∷ for_some b.parameters (λ p.
      lit "[Bond]"
      ∷ (for_some p.mode (λ m. setting (lit "Mode=") (bond_mode_to_networkd m))
          ++ (for_some p.mii_monitor_interval
                (λ n. setting (lit "MIIMonitorSec=") (decimal n ++ lit "ms"))
              ++ (for_some p.primary (setting (lit "PrimaryReselectPolicy="))
                  ++ (for_some p.transmit_hash_policy (setting (lit "TransmitHashPolicy="))
                      ++ for_some p.lacp_rate (setting (lit "LACPTransmitRate="))))))))

-- The `.network` files of the interfaces that a bond or a bridge joins, from number `i`.
unfoldable pub member_files : Text → Text → ℕ → List Text → ℕ → List RenderedFile
unfolding written
member_files key name priority [] i = []
member_files key name priority (member ∷ ms) i =
    file (file_name (priority + 1) name (b'-' ∷ (decimal i ++ lit ".network"))) (
      written (lit "[Match]" ∷ (lit "Name=" ++ member) ∷ [] ∷ lit "[Network]" ∷ (key ++ name) ∷ []))
    ∷ member_files key name priority ms (i + 1)

unfoldable pub render_bond : Text → BondConfig → ℕ → List RenderedFile
unfolding bond_netdev render_network_section member_files
render_bond name b priority =
    file (file_name priority name (lit ".netdev")) (bond_netdev name b)
    ∷ file (file_name priority name (lit ".network")) (render_network_section name b.common none)
    ∷ member_files (lit "Bond=") name priority b.interfaces 0

unfoldable pub bridge_netdev : Text → BridgeConfig → Text
unfolding written
bridge_netdev name b = written (
    lit "[NetDev]"
    ∷ (lit "Name=" ++ name)
    ∷ lit "Kind=bridge"
    ∷ []
    ∷ for_some b.parameters (λ p.
      lit "[Bridge]"
      ∷ (for_some p.stp (λ s. setting (lit "STP=") (yes_no s (lit "yes") (lit "no")))
          ++ (for_some p.forward_delay (λ n. setting (lit "ForwardDelaySec=") (decimal n))
              ++ (for_some p.hello_time (λ n. setting (lit "HelloTimeSec=") (decimal n))
                  ++ (for_some p.max_age (λ n. setting (lit "MaxAgeSec=") (decimal n))
                      ++ for_some p.priority (λ n. setting (lit "Priority=") (decimal n))))))))

unfoldable pub render_bridge : Text → BridgeConfig → ℕ → List RenderedFile
unfolding bridge_netdev render_network_section member_files
render_bridge name b priority =
    file (file_name priority name (lit ".netdev")) (bridge_netdev name b)
    ∷ file (file_name priority name (lit ".network")) (render_network_section name b.common none)
    ∷ member_files (lit "Bridge=") name priority b.interfaces 0

unfoldable pub render_vlan : Text → VlanConfig → ℕ → List RenderedFile
unfolding render_network_section written
render_vlan name v priority =
    file (file_name priority name (lit ".netdev")) (
      written (
        lit "[NetDev]"
        ∷ (lit "Name=" ++ name)
        ∷ lit "Kind=vlan"
        ∷ []
        ∷ lit "[VLAN]"
        ∷ (lit "Id=" ++ decimal v.id)
        ∷ []))
    ∷ file (file_name priority name (lit ".network")) (render_network_section name v.common none)
    ∷ file (file_name (priority + 1) v.link (lit "-vlan.network")) (
        written (
          lit "[Match]"
          ∷ (lit "Name=" ++ v.link)
          ∷ []
          ∷ lit "[Network]"
          ∷ (lit "VLAN=" ++ name)
          ∷ []))
    ∷ []

-- One loop of `render`: the files of the interfaces, and the next priority.
unfoldable pub render_all :
    {A : Type 0} → (Text → A → ℕ → List RenderedFile) → HashMap A → ℕ → List RenderedFile × ℕ
render_all f [] priority = ([], priority)
render_all f ((name, a) ∷ m) priority =
    let (files, next) = render_all f m (priority + 10) in (f name a priority ++ files, next)

unfoldable pub render : NetworkConfig → List RenderedFile
unfolding render_all render_ethernet render_bond render_bridge render_vlan
render c =
    let (ethernets, p1) = render_all render_ethernet c.ethernets 10 in
    let (bonds, p2) = render_all render_bond c.bonds p1 in
    let (bridges, p3) = render_all render_bridge c.bridges p2 in
    let (vlans, p4) = render_all render_vlan c.vlans p3 in
    ethernets ++ (bonds ++ (bridges ++ vlans))
