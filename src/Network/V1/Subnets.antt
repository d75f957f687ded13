-- ===== src/Network/V1/Subnets.antt =====
-- What the subnets of an interface make of its common settings.
use cloud_init_rs.Prelude.{
  ◌≡◌, refl, sym, ap, ◌∙◌, Bool, true, false, ◌||◌, Option, none, some, List, [], ◌∷◌, ◌++◌, map,
  append-nil, append_assoc, arith, if◌then◌else◌, any,
}
use cloud_init_rs.Prelude.Texts.{Text}
use cloud_init_rs.Network.Types.{RouteConfig, InterfaceCommon, default_common}
use cloud_init_rs.Network.V1.{
  SubnetConfig, SubnetKind, dhcp4, dhcp6, static, stateful, PhysicalConfig, subnet_kind,
  with_prefix, convert_route, apply_kind, apply_dns, apply_routes, apply_subnet, apply_subnets,
  convert_physical,
}

-- The addresses of the static subnets, in order.
abbrev pub kind_addresses : SubnetKind → SubnetConfig → List Text
kind_addresses static sub = elim sub.address [
  | none ↦ []
  | some addr ↦ with_prefix addr sub.netmask ∷ []
]
kind_addresses _ sub = []

abbrev pub static_addresses : List SubnetConfig → List Text
static_addresses [] = []
static_addresses (sub ∷ subs) =
    kind_addresses (subnet_kind sub.subnet_type) sub ++ static_addresses subs

abbrev pub is_dhcp4 : SubnetKind → Bool
is_dhcp4 dhcp4 = true
is_dhcp4 _ = false

abbrev pub is_dhcp6 : SubnetKind → Bool
is_dhcp6 dhcp6 = true
is_dhcp6 stateful = true
is_dhcp6 _ = false

abbrev pub any_kind : (SubnetKind → Bool) → List SubnetConfig → Bool
any_kind p = any (λ sub. p (subnet_kind sub.subnet_type))

abbrev pub all_routes : List SubnetConfig → List RouteConfig
all_routes [] = []
all_routes (sub ∷ subs) = map convert_route sub.routes ++ all_routes subs

abbrev pub subnet_dns : List SubnetConfig → List Text
subnet_dns [] = []
subnet_dns (sub ∷ subs) = sub.dns_nameservers ++ subnet_dns subs

-- The settings `c`, with the subnets `subs` applied, are `d`.
pub record Applied (c : InterfaceCommon) (subs : List SubnetConfig) (d : InterfaceCommon)
    : Type 0 where
  pub addresses : d.addresses ≡ c.addresses ++ static_addresses subs
  pub dhcp4 : d.dhcp4 ≡ (if any_kind is_dhcp4 subs then some true else c.dhcp4)
  pub dhcp6 : d.dhcp6 ≡ (if any_kind is_dhcp6 subs then some true else c.dhcp6)
  pub routes : d.routes ≡ c.routes ++ all_routes subs
  pub dns : d.nameservers.addresses ≡ c.nameservers.addresses ++ subnet_dns subs
  pub mtu : d.mtu ≡ c.mtu

-- One kind changes the addresses and the flags, and leaves the rest.
pub record KindApplied (c : InterfaceCommon) (k : SubnetKind) (sub : SubnetConfig)
    (d : InterfaceCommon) : Type 0 where
  pub addresses : d.addresses ≡ c.addresses ++ kind_addresses k sub
  pub dhcp4 : d.dhcp4 ≡ (if is_dhcp4 k then some true else c.dhcp4)
  pub dhcp6 : d.dhcp6 ≡ (if is_dhcp6 k then some true else c.dhcp6)
  pub routes : d.routes ≡ c.routes
  pub dns : d.nameservers.addresses ≡ c.nameservers.addresses
  pub mtu : d.mtu ≡ c.mtu

apply_kind-KindApplied :
    (k : SubnetKind) (sub : SubnetConfig) (c : InterfaceCommon)
    → KindApplied c k sub (apply_kind k sub c)
unfolding apply_kind
apply_kind-KindApplied static sub c = record {
  addresses = ground (arith, append-nil c.addresses);
  dhcp4 = ground arith;
  dhcp6 = ground arith;
  routes = ground arith;
  dns = ground arith;
  mtu = ground arith;
}
apply_kind-KindApplied dhcp4 sub c = record {
  addresses = sym (append-nil _);
  dhcp4 = refl;
  dhcp6 = refl;
  routes = refl;
  dns = refl;
  mtu = refl;
}
apply_kind-KindApplied _ sub c = record {
  addresses = sym (append-nil _);
  dhcp4 = refl;
  dhcp6 = refl;
  routes = refl;
  dns = refl;
  mtu = refl;
}

flag_twice :
    (a b : Bool) (x : Option Bool)
    → (if b then some true else (if a then some true else x)) ≡ (if a || b then some true else x)
flag_twice true true x = refl
flag_twice true false x = refl
flag_twice false b x = refl

apply_subnet-Applied :
    (c : InterfaceCommon) (sub : SubnetConfig) (subs : List SubnetConfig) {d : InterfaceCommon}
    → Applied (apply_subnet c sub) subs d
    → Applied c (sub ∷ subs) d
unfolding apply_subnet apply_dns apply_routes
apply_subnet-Applied c sub subs h =
    let k = apply_kind-KindApplied (subnet_kind sub.subnet_type) sub c in
    record {
      addresses =
          h.addresses
          ∙ (ap (λ l. l ++ static_addresses subs) k.addresses
              ∙ append_assoc c.addresses (kind_addresses (subnet_kind sub.subnet_type) sub)
                  (static_addresses subs));
      dhcp4 =
          h.dhcp4
          ∙ (ap (λ x. if any_kind is_dhcp4 subs then some true else x) k.dhcp4
              ∙ flag_twice (is_dhcp4 (subnet_kind sub.subnet_type)) (any_kind is_dhcp4 subs)
                  c.dhcp4);
      dhcp6 =
          h.dhcp6
          ∙ (ap (λ x. if any_kind is_dhcp6 subs then some true else x) k.dhcp6
              ∙ flag_twice (is_dhcp6 (subnet_kind sub.subnet_type)) (any_kind is_dhcp6 subs)
                  c.dhcp6);
      routes =
          h.routes
          ∙ (ap (λ l. (l ++ map convert_route sub.routes) ++ all_routes subs) k.routes
              ∙ append_assoc c.routes (map convert_route sub.routes) (all_routes subs));
      dns =
          h.dns
          ∙ (ap (λ l. (l ++ sub.dns_nameservers) ++ subnet_dns subs) k.dns
              ∙ append_assoc c.nameservers.addresses sub.dns_nameservers (subnet_dns subs));
      mtu = h.mtu ∙ k.mtu;
    }

pub apply_subnets-Applied :
    (subs : List SubnetConfig) (c : InterfaceCommon) → Applied c subs (apply_subnets c subs)
unfolding apply_subnets
apply_subnets-Applied [] c = record {
  addresses = sym (append-nil _);
  dhcp4 = refl;
  dhcp6 = refl;
  routes = sym (append-nil _);
  dns = sym (append-nil _);
  mtu = refl;
}
apply_subnets-Applied (sub ∷ subs) c =
    apply_subnet-Applied c sub subs (apply_subnets-Applied subs (apply_subnet c sub))

-- The settings of a converted physical interface have the item's mtu, one address for each
-- static subnet that has one, in order, all the routes and nameservers of the subnets, in order,
-- and the two DHCP flags set exactly if a subnet asks for them.
pub convert_physical-Applied :
    (p : PhysicalConfig)
    → Applied
        (record default_common { mtu = p.mtu; wakeonlan = p.wakeonlan })
        p.subnets
        (convert_physical p).common
unfolding convert_physical
convert_physical-Applied p = apply_subnets-Applied p.subnets _
