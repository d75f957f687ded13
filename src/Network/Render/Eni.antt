-- ===== src/Network/Render/Eni.antt =====
-- src/network/render/eni.rs
use cloud_init_rs.Prelude.Texts.{written}
use cloud_init_rs.Prelude.{
  Bool, not, none, some, List, [], ◌∷◌, ◌++◌, if◌then◌else◌, is_empty, keep,
}
use cloud_init_rs.Prelude.Texts.{Text, lit, contains_char, join, decimal}
use cloud_init_rs.Network.Types.{
  HashMap, InterfaceCommon, RouteConfig, EthernetConfig, NetworkConfig,
}
use cloud_init_rs.Network.Netmask.{parse_cidr}
use cloud_init_rs.Network.Render.{RenderedFile, for_some, is_true, setting}

abbrev pub is_v6 : Text → Bool
is_v6 t = contains_char t b':'

unfoldable pub auto_lines : Text → Text → List Text
auto_lines name method =
    (lit "auto " ++ name) ∷ (lit "iface " ++ (name ++ (lit " inet " ++ method))) ∷ []

-- The addresses after the first, each added when the interface comes up.
unfoldable pub more_addresses : Text → List Text → List Text
unfolding parse_cidr
more_addresses name [] = []
more_addresses name (a ∷ more) =
    (lit "    up ip addr add "
      ++ ((parse_cidr a).0 ++ (b'/' ∷ ((parse_cidr a).1 ++ (lit " dev " ++ name)))))
    ∷ more_addresses name more

unfoldable pub joined : Text → List Text → List Text
joined key list = if is_empty list then [] else setting key (join (lit " ") list)

unfoldable pub static_lines : Text → InterfaceCommon → List Text → List Text
unfolding auto_lines more_addresses joined parse_cidr
static_lines name c [] = []
static_lines name c (a ∷ more) =
    auto_lines name (lit "static")
    ++ ((lit "    address " ++ (parse_cidr a).0)
        ∷ (lit "    netmask " ++ (parse_cidr a).1)
        ∷ (for_some c.gateway4 (setting (lit "    gateway "))
            ++ (joined (lit "    dns-nameservers ") c.nameservers.addresses
                ++ (joined (lit "    dns-search ") c.nameservers.search
                    ++ more_addresses name more))))

unfoldable pub inet_lines : Text → InterfaceCommon → List Text
unfolding auto_lines static_lines
inet_lines name c =
    if is_true c.dhcp4
    then auto_lines name (lit "dhcp")
    else if not (is_empty c.addresses)
    then static_lines name c (keep (λ a. not (is_v6 a)) c.addresses)
    else auto_lines name (lit "manual")

unfoldable pub route_lines : RouteConfig → List Text
route_lines r =
    if is_v6 r.to
    then []
    else (lit "    up ip route add "
        ++ (r.to
            ++ (elim r.via [ none ↦ [] | some via ↦ lit " via " ++ via ]
                ++ elim r.metric [ none ↦ [] | some m ↦ lit " metric " ++ decimal m ])))
      ∷ []

unfoldable pub routes_lines : List RouteConfig → List Text
unfolding route_lines
routes_lines [] = []
routes_lines (r ∷ rs) = route_lines r ++ routes_lines rs

unfoldable pub static6_lines : Text → InterfaceCommon → List Text → List Text
static6_lines name c [] = []
static6_lines name c (a ∷ more) =
    []
    ∷ (lit "iface " ++ (name ++ lit " inet6 static"))
    ∷ (lit "    address " ++ a)
    ∷ for_some c.gateway6 (setting (lit "    gateway "))

unfoldable pub inet6_lines : Text → InterfaceCommon → List Text
unfolding static6_lines
inet6_lines name c =
    if is_true c.dhcp6
    then [] ∷ (lit "iface " ++ (name ++ lit " inet6 dhcp")) ∷ []
    else if is_true c.accept_ra
    then [] ∷ (lit "iface " ++ (name ++ lit " inet6 auto")) ∷ []
    else static6_lines name c (keep is_v6 c.addresses)

unfoldable pub render_interface : Text → EthernetConfig → List Text
unfolding inet_lines routes_lines inet6_lines
render_interface name e =
    inet_lines name e.common
    ++ (for_some e.common.mtu (λ n. setting (lit "    mtu ") (decimal n))
        ++ ((if is_true e.common.wakeonlan then lit "    ethernet-wol g" ∷ [] else [])
            ++ (routes_lines e.common.routes ++ inet6_lines name e.common)))

unfoldable pub render_interfaces : HashMap EthernetConfig → List Text
unfolding render_interface
render_interfaces [] = []
render_interfaces ((name, e) ∷ m) = render_interface name e ++ ([] ∷ render_interfaces m)

unfoldable pub render : NetworkConfig → List RenderedFile
unfolding render_interfaces written
render c =
    record {
      path = lit "interfaces";
      content = written (
          lit "# This file is generated by cloud-init"
          ∷ lit "# See interfaces(5) for file format"
          ∷ []
          ∷ lit "auto lo"
          ∷ lit "iface lo inet loopback"
          ∷ []
          ∷ render_interfaces c.ethernets);
      mode = 0o644;
    }
    ∷ []
