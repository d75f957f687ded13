-- ===== src/Network/Netmask.antt =====
-- Netmasks and prefix lengths: `netmask_to_prefix` of src/network/v1.rs, and `parse_cidr` and
-- `prefix_to_netmask` of src/network/render/eni.rs.
pub mod RoundTrip
use cloud_init_rs.Prelude.{
  ℕ, ◌+◌, ◌-◌, ◌*◌, ◌/◌, ◌%◌, ◌^◌, Bool, ◌&&◌, Option, none, some, List, [], ◌∷◌, ◌++◌, leb, eqb,
  if◌then◌else◌, length, unwrap_or,
}
use cloud_init_rs.Prelude.Texts.{Text, lit, split_char, decimal}

is_digit : ℕ → Bool
is_digit c = leb b'0' c && leb c b'9'

-- The digits of a `u8`: none if one is no digit or the value passes 255.
parse_digits : Text → ℕ → Option ℕ
parse_digits [] acc = some acc
parse_digits (c ∷ s) acc =
    let next = acc * 10 + (c - 48) in
    let rest = parse_digits s next in if is_digit c && leb next 255 then rest else none

-- `str::parse::<u8>`: an optional `+`, and one digit or more.
unfoldable pub parse_u8 : Text → Option ℕ
unfolding parse_digits is_digit
parse_u8 [] = none
parse_u8 (c ∷ []) = parse_digits (c ∷ []) 0
parse_u8 (c ∷ d ∷ s) = if eqb c b'+' then parse_digits (d ∷ s) 0 else parse_digits (c ∷ d ∷ s) 0

-- `u8::count_ones`
unfoldable pub count_ones : ℕ → ℕ
count_ones b =
    b % 2 + b / 2 % 2 + b / 4 % 2 + b / 8 % 2 + b / 16 % 2 + b / 32 % 2 + b / 64 % 2 + b / 128 % 2

-- `filter_map(|s| s.parse().ok())`
parse_octets : List Text → List ℕ
parse_octets [] = []
parse_octets (s ∷ ss) =
    let rest = parse_octets ss in elim (parse_u8 s) [ none ↦ rest | some n ↦ n ∷ rest ]

-- `for octet in octets { prefix += octet.count_ones() as u8; }`
sum_ones : List ℕ → ℕ → ℕ
sum_ones [] prefix = prefix
sum_ones (o ∷ os) prefix = sum_ones os ((prefix + count_ones o) % 256)

unfoldable pub netmask_to_prefix : Text → ℕ
unfolding parse_u8 parse_octets sum_ones count_ones split_char
netmask_to_prefix netmask = elim (parse_u8 netmask) [
  | some prefix ↦ prefix
  | none ↦
      let octets = parse_octets (split_char b'.' netmask) in
      if eqb (length octets) 4 then sum_ones octets 0 else 24
]

-- `0xffffffff << (32 - prefix)` on a `u32`
unfoldable pub mask_of : ℕ → ℕ
mask_of prefix = if leb 32 prefix then 0xffffffff else 0xffffffff * 2 ^ (32 - prefix) % 2 ^ 32

unfoldable pub prefix_to_netmask : ℕ → Text
unfolding mask_of decimal lit
prefix_to_netmask prefix =
    let mask = mask_of prefix in
    decimal (mask / 2 ^ 24 % 256)
    ++ (lit "."
        ++ (decimal (mask / 2 ^ 16 % 256)
            ++ (lit "." ++ (decimal (mask / 2 ^ 8 % 256) ++ (lit "." ++ decimal (mask % 256))))))

-- The address, and the netmask of the prefix; without a prefix that parses, of 24.
unfoldable pub parse_cidr : Text → Text × Text
unfolding prefix_to_netmask parse_u8 split_char
parse_cidr cidr = elim (split_char b'/' cidr) [
  | [] ↦ ([], prefix_to_netmask 24)
  | ip ∷ rest ↦ elim rest [
    | [] ↦ (ip, prefix_to_netmask 24)
    | p ∷ ps ↦ (ip, prefix_to_netmask (unwrap_or (parse_u8 p) 24))
  ]
]
