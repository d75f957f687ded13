-- ===== src/Network/Render/Networkd/Distinct.antt =====
-- No two files that the networkd renderer makes have the same name.
use mathlib.Core.List.{append_cancel_left, map-id, map-map}
use cloud_init_rs.Prelude.{
  ℕ, ◌+◌, ◌≤◌, ◌<◌, ◌≡◌, refl, sym, ap, ◌∙◌, subst, ◌≢◌, Bool, true, false, List, [], ◌∷◌, ◌++◌,
  map, arith, ltb, if◌then◌else◌, inl, inr, Bool-cases, All,
}
use cloud_init_rs.Prelude.Texts.{Text, lit, decimal}
use cloud_init_rs.Prelude.Texts.Decimal.{leading, leading-decimal, leading-0}
use cloud_init_rs.Network.Types.{NetworkConfig}
use cloud_init_rs.Network.Render.Networkd.{render, file_name, two_digits}
use cloud_init_rs.Network.Render.Networkd.Files.{
  has_link, Interface, ethernet, bond, bridge, vlan, interfaces, names_of, member_names, all_names,
  label, readable, render-names,
}

-- No text of the list is a later one.
abbrev pub Distinct : List Text → Type 0
Distinct [] = Unit
Distinct (t ∷ ts) = All (λ u. t ≢ u) ts × Distinct ts

All-append {ℓ κ} :
    {A : Type ℓ} (P : A → Type κ) (xs ys : List A) → All P xs → All P ys → All P (xs ++ ys)
All-append P [] ys h k = k
All-append P (x ∷ xs) ys (p, h) k = (p, All-append P xs ys h k)

pub All-map {ℓ κ μ} :
    {A : Type ℓ} {P : A → Type κ} {Q : A → Type μ} (xs : List A)
    → ((a : A) → P a → Q a)
    → All P xs
    → All Q xs
All-map [] f h = tt
All-map (x ∷ xs) f (p, h) = (f x p, All-map xs f h)

Distinct-append :
    (ts us : List Text)
    → Distinct ts
    → Distinct us
    → All (λ t. All (λ u. t ≢ u) us) ts
    → Distinct (ts ++ us)
Distinct-append [] us h k apart = k
Distinct-append (t ∷ ts) us (new, h) k (far, apart) =
    (All-append (λ u. t ≢ u) ts us new far, Distinct-append ts us h k apart)

-- The number that a file's name begins with.
number-file_name : (p : ℕ) (name suffix : Text) → leading 0 (file_name p name suffix) ≡ p
unfolding two_digits
number-file_name p name suffix = elim (Bool-cases (ltb p 10)) [
  | inl one ↦ rw one (leading-0 _ ∙ leading-decimal p b'-' (name ++ suffix) refl)
  | inr more ↦ rw more (leading-decimal p b'-' (name ++ suffix) refl)
]

-- Names with different numbers are different.
ne_of_number : (t u : Text) → leading 0 t ≢ leading 0 u → t ≢ u
ne_of_number t u h e = h (ap (λ (t : Text). leading 0 t) e)

number_ne : (p q : ℕ) (name name' s s' : Text) → p ≢ q → file_name p name s ≢ file_name q name' s'
number_ne p q name name' s s' h =
    ne_of_number _ _ (λ e. h (sym (number-file_name p name s) ∙ (e ∙ number-file_name q name' s')))

-- Names with one number and name are different if what follows is.
suffix_ne : (p : ℕ) (name s s' : Text) → s ≢ s' → file_name p name s ≢ file_name p name s'
suffix_ne p name s s' h e = h (
    append_cancel_left name s s'
      (append_cancel_left (b'-' ∷ []) _ _ (append_cancel_left (two_digits p) _ _ e)))

member_suffix : ℕ → Text
member_suffix i = b'-' ∷ (decimal i ++ lit ".network")

member_suffix_ne : (i j : ℕ) → i ≢ j → member_suffix i ≢ member_suffix j
unfolding member_suffix lit
member_suffix_ne i j h e = h (
    sym (leading-decimal i b'.' _ refl)
    ∙ (ap (λ (t : Text). leading 0 t) (append_cancel_left (b'-' ∷ []) _ _ e)
        ∙ leading-decimal j b'.' _ refl))

-- The names for the members from number `j` on are none of those before.
member_names-new :
    (p : ℕ) (name : Text) (ms : List Text) (i j : ℕ)
    → i < j
    → All (λ u. file_name (p + 1) name (member_suffix i) ≢ u) (member_names p name ms j)
unfolding member_suffix
member_names-new p name [] i j h = tt
member_names-new p name (m ∷ ms) i j h = (
  suffix_ne (p + 1) name _ _ (member_suffix_ne i j (omega arith)),
  member_names-new p name ms i (j + 1) (omega arith),
)

member_names-Distinct :
    (p : ℕ) (name : Text) (ms : List Text) (i : ℕ) → Distinct (member_names p name ms i)
unfolding member_suffix
member_names-Distinct p name [] i = tt
member_names-Distinct p name (m ∷ ms) i =
    (member_names-new p name ms i (i + 1) (omega arith), member_names-Distinct p name ms (i + 1))

-- The name begins with the number `p` or the next.
abbrev Near : ℕ → Text → Type 0
Near p t = (p ≤ leading 0 t) × (leading 0 t ≤ p + 1)

here-Near : (p : ℕ) (name s : Text) → Near p (file_name p name s)
here-Near p name s = rw number-file_name (omega arith)

next-Near : (p : ℕ) (name s : Text) → Near p (file_name (p + 1) name s)
next-Near p name s = rw number-file_name (omega arith)

member_names-Near :
    (p : ℕ) (name : Text) (ms : List Text) (i : ℕ) → All (Near p) (member_names p name ms i)
member_names-Near p name [] i = tt
member_names-Near p name (m ∷ ms) i =
    (next-Near p name (b'-' ∷ (decimal i ++ lit ".network")), member_names-Near p name ms (i + 1))

names_of-Near : (i : Interface) (p : ℕ) → All (Near p) (names_of i p)
names_of-Near (ethernet name e) p =
    (here-Near p name (lit ".network"), link (has_link e.match_config))
  where
    link : (b : Bool) → All (Near p) (if b then file_name p name (lit ".link") ∷ [] else [])
    link true = (here-Near p name (lit ".link"), tt)
    link false = tt
names_of-Near (bond name b) p = (
  here-Near p name (lit ".netdev"),
  (here-Near p name (lit ".network"), member_names-Near p name b.interfaces 0),
)
names_of-Near (bridge name b) p = (
  here-Near p name (lit ".netdev"),
  (here-Near p name (lit ".network"), member_names-Near p name b.interfaces 0),
)
names_of-Near (vlan name v) p = (
  here-Near p name (lit ".netdev"),
  (here-Near p name (lit ".network"), (next-Near p v.link (lit "-vlan.network"), tt)),
)

netdev-ne-network : lit ".netdev" ≢ lit ".network"
unfolding lit
netdev-ne-network e = cc

network-ne-link : lit ".network" ≢ lit ".link"
unfolding lit
network-ne-link e = cc

members-new :
    (p : ℕ) (name s : Text) (ms : List Text) (i : ℕ)
    → All (λ u. file_name p name s ≢ u) (member_names p name ms i)
members-new p name s [] i = tt
members-new p name s (m ∷ ms) i =
    (number_ne p (p + 1) name name s _ (omega arith), members-new p name s ms (i + 1))

-- The files of a bond or a bridge.
joined-Distinct :
    (p : ℕ) (name : Text) (ms : List Text)
    → Distinct (
        file_name p name (lit ".netdev")
        ∷ file_name p name (lit ".network")
        ∷ member_names p name ms 0)
joined-Distinct p name ms = (
  (suffix_ne p name _ _ netdev-ne-network, members-new p name (lit ".netdev") ms 0),
  (members-new p name (lit ".network") ms 0, member_names-Distinct p name ms 0),
)

names_of-Distinct : (i : Interface) (p : ℕ) → Distinct (names_of i p)
names_of-Distinct (ethernet name e) p = link (has_link e.match_config)
  where
    link :
        (b : Bool)
        → Distinct (
            file_name p name (lit ".network")
            ∷ (if b then file_name p name (lit ".link") ∷ [] else []))
    link true = ((suffix_ne p name _ _ network-ne-link, tt), (tt, tt))
    link false = (tt, tt)
names_of-Distinct (bond name b) p = joined-Distinct p name b.interfaces
names_of-Distinct (bridge name b) p = joined-Distinct p name b.interfaces
names_of-Distinct (vlan name v) p = (
  (
    suffix_ne p name _ _ netdev-ne-network,
    (number_ne p (p + 1) name v.link (lit ".netdev") (lit "-vlan.network") (omega arith), tt),
  ),
  (
    (number_ne p (p + 1) name v.link (lit ".network") (lit "-vlan.network") (omega arith), tt),
    (tt, tt),
  ),
)

pub all_names-le : (is : List Interface) (p : ℕ) → All (λ t. p ≤ leading 0 t) (all_names p is)
all_names-le [] p = tt
all_names-le (i ∷ is) p =
    All-append (λ t. p ≤ leading 0 t) (names_of i p) (all_names (p + 10) is)
      (All-map (names_of i p) (λ t h. h.0) (names_of-Near i p))
      (All-map (all_names (p + 10) is) (λ t h. omega arith) (all_names-le is (p + 10)))

all_names-Distinct : (is : List Interface) (p : ℕ) → Distinct (all_names p is)
all_names-Distinct [] p = tt
all_names-Distinct (i ∷ is) p =
    Distinct-append (names_of i p) (all_names (p + 10) is) (names_of-Distinct i p)
      (all_names-Distinct is (p + 10))
      (All-map (names_of i p)
        (λ t h.
          All-map (all_names (p + 10) is) (λ u k. ne_of_number t u (λ e. omega arith))
            (all_names-le is (p + 10)))
        (names_of-Near i p))

pub paths-eq-names :
    (c : NetworkConfig) → map (λ f. f.path) (render c) ≡ all_names 10 (interfaces c)
paths-eq-names c =
    sym (map-map (λ (q : Text × ℕ). q.0) label (render c))
    ∙ (ap (map (λ (q : Text × ℕ). q.0)) (render-names c)
        ∙ (map-map (λ (q : Text × ℕ). q.0) readable (all_names 10 (interfaces c))
            ∙ map-id (all_names 10 (interfaces c))))

-- No two of the files are called the same, so none is written over another.
pub render-Distinct : (c : NetworkConfig) → Distinct (map (λ f. f.path) (render c))
render-Distinct c = subst Distinct (sym (paths-eq-names c)) (all_names-Distinct (interfaces c) 10)
