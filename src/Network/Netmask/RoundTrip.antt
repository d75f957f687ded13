-- ===== src/Network/Netmask/RoundTrip.antt =====
-- A prefix length, written as a netmask and read back.
use cloud_init_rs.Prelude.{
  ℕ, zero, suc, ◌+◌, ◌*◌, ◌%◌, ◌≤◌, ◌<◌, ◌≡◌, refl, inl, inr, Bool, true, all, none, List, [], ◌∷◌,
  arith, eqb, eqb_iff, Bool-cases, length,
}
use cloud_init_rs.Prelude.Texts.{Text, split_char}
use cloud_init_rs.Network.Netmask.{
  netmask_to_prefix, prefix_to_netmask, parse_u8, sum_ones, count_ones, parse_octets,
}

-- The numbers below a bound.
upto : ℕ → List ℕ
upto zero = []
upto (suc k) = k ∷ upto k

-- What a test finds of all of them holds of each.
all-upto :
    (test : ℕ → Bool) (bound k : ℕ) → k < bound → all test (upto bound) ≡ true → test k ≡ true
unfolding upto
all-upto test zero k below found = absurd (omega arith)
all-upto test (suc m) k below found = ground (arith, all-upto test m k)

round_trip_table : all (λ n. eqb (netmask_to_prefix (prefix_to_netmask n)) n) (upto 33) ≡ true
unfolding upto netmask_to_prefix prefix_to_netmask
round_trip_table = refl

-- For prefix lengths up to 32, reading back the dotted netmask that the ENI renderer writes for
-- a prefix length gives the prefix length.
pub netmask_to_prefix-prefix_to_netmask :
    (n : ℕ) → n ≤ 32 → netmask_to_prefix (prefix_to_netmask n) ≡ n
netmask_to_prefix-prefix_to_netmask n h =
    (eqb_iff _ n).0 (all-upto _ 33 n (omega arith) round_trip_table)

count_ones-le : (b : ℕ) → count_ones b ≤ 8
unfolding count_ones
count_ones-le b = omega arith

sum_ones-le : (os : List ℕ) (p : ℕ) → sum_ones os p ≤ p + 8 * length os
unfolding sum_ones
sum_ones-le [] p = omega arith
sum_ones-le (o ∷ os) p = omega (arith, sum_ones-le os ((p + count_ones o) % 256), count_ones-le o)

-- For a netmask that is not itself a number below 256, the prefix length is at most 32.
pub netmask_to_prefix-le : (s : Text) → parse_u8 s ≡ none → netmask_to_prefix s ≤ 32
unfolding netmask_to_prefix
netmask_to_prefix-le s h =
    let octets = parse_octets (split_char b'.' s) in
    rw (h, netmask_to_prefix)
      (elim (Bool-cases (eqb (length octets) 4)) [
        | inl four ↦
            rw four (omega (arith, sum_ones-le octets 0, (eqb_iff (length octets) 4).0 four))
        | inr other ↦ rw other (omega arith)
      ])
