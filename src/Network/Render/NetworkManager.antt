-- ===== src/Network/Render/NetworkManager.antt =====
-- src/network/render/network_manager.rs
use cloud_init_rs.Prelude.Texts.{written}
use cloud_init_rs.Prelude.{
  ℕ, ◌+◌, Bool, not, none, some, List, [], ◌∷◌, ◌++◌, if◌then◌else◌, is_empty, keep,
}
use cloud_init_rs.Prelude.Texts.{Text, lit, contains_char, join, decimal}
use cloud_init_rs.Network.Types.{
  HashMap, InterfaceCommon, RouteConfig, EthernetConfig, NetworkConfig,
}
use cloud_init_rs.Network.Render.{RenderedFile, for_some, is_true, setting}

abbrev pub is_v6 : Text → Bool
is_v6 t = contains_char t b':'

-- `address{i + 1}={addr}`
unfoldable pub address_lines : List Text → ℕ → List Text
address_lines [] i = []
address_lines (a ∷ more) i =
    (lit "address" ++ (decimal (i + 1) ++ (b'=' ∷ a))) ∷ address_lines more (i + 1)

unfoldable pub route_text : RouteConfig → Text
route_text r =
    r.to
    ++ (elim r.via [ none ↦ [] | some via ↦ b',' ∷ via ]
        ++ elim r.metric [ none ↦ [] | some m ↦ b',' ∷ decimal m ])

-- A route over IPv6 is skipped, and takes its number all the same.
unfoldable pub route_lines : List RouteConfig → ℕ → List Text
unfolding route_text
route_lines [] i = []
route_lines (r ∷ rs) i =
    let rest = route_lines rs (i + 1) in
    if is_v6 r.to then rest else (lit "route" ++ (decimal (i + 1) ++ (b'=' ∷ route_text r))) ∷ rest

unfoldable pub method4_lines : InterfaceCommon → List Text
unfolding address_lines
method4_lines c =
    if is_true c.dhcp4
    then lit "method=auto" ∷ []
    else if not (is_empty c.addresses)
    then lit "method=manual" ∷ address_lines (keep (λ a. not (is_v6 a)) c.addresses) 0
    else lit "method=disabled" ∷ []

-- `if !list.is_empty() { writeln!("{key}{}", list.join(";")) }`
unfoldable pub joined : Text → List Text → List Text
joined key list = if is_empty list then [] else setting key (join (lit ";") list)

unfoldable pub ipv4_lines : InterfaceCommon → List Text
unfolding method4_lines joined route_lines
ipv4_lines c =
    lit "[ipv4]"
    ∷ (method4_lines c
        ++ (for_some c.gateway4 (setting (lit "gateway="))
            ++ (joined (lit "dns=") (keep (λ d. not (is_v6 d)) c.nameservers.addresses)
                ++ (joined (lit "dns-search=") c.nameservers.search
                    ++ (route_lines c.routes 0 ++ ([] ∷ []))))))

unfoldable pub method6_lines : InterfaceCommon → List Text
unfolding address_lines
method6_lines c =
    if is_true c.dhcp6
    then lit "method=auto" ∷ []
    else if is_true c.accept_ra
    then lit "method=auto" ∷ lit "addr-gen-mode=eui64" ∷ []
    else if not (is_empty (keep is_v6 c.addresses))
    then lit "method=manual" ∷ address_lines (keep is_v6 c.addresses) 0
    else lit "method=ignore" ∷ []

unfoldable pub ipv6_lines : InterfaceCommon → List Text
unfolding method6_lines joined
ipv6_lines c =
    lit "[ipv6]"
    ∷ (method6_lines c
        ++ (for_some c.gateway6 (setting (lit "gateway="))
            ++ (joined (lit "dns=") (keep is_v6 c.nameservers.addresses) ++ ([] ∷ []))))

unfoldable pub mac_lines : EthernetConfig → List Text
mac_lines e = elim e.match_config [
  | none ↦ []
  | some mc ↦ for_some mc.macaddress (setting (lit "mac-address="))
]

-- The UUID is drawn at random: an argument.
unfoldable pub render_ethernet : Text → EthernetConfig → Text → RenderedFile
unfolding mac_lines ipv4_lines ipv6_lines written
render_ethernet name e uuid = record {
  path = name ++ lit ".nmconnection";
  content = written (
      lit "[connection]"
      ∷ (lit "id=" ++ name)
      ∷ (lit "uuid=" ++ uuid)
      ∷ lit "type=ethernet"
      ∷ (lit "interface-name=" ++ name)
      ∷ []
      ∷ lit "[ethernet]"
      ∷ (mac_lines e
          ++ (for_some e.common.mtu (λ n. setting (lit "mtu=") (decimal n))
              ++ (for_some e.common.wakeonlan
                    (λ b. setting (lit "wake-on-lan=") (if b then lit "64" else lit "0"))
                  ++ ([] ∷ (ipv4_lines e.common ++ ipv6_lines e.common))))));
  mode = 0o600;
}

-- `render`, with the UUIDs in the order in which they are drawn.
unfoldable pub render_all : HashMap EthernetConfig → (ℕ → Text) → ℕ → List RenderedFile
unfolding render_ethernet
render_all [] uuid i = []
render_all ((name, e) ∷ m) uuid i = render_ethernet name e (uuid i) ∷ render_all m uuid (i + 1)

unfoldable pub render : NetworkConfig → (ℕ → Text) → List RenderedFile
unfolding render_all
render c uuid = render_all c.ethernets uuid 0
