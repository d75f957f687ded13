-- ===== src/Modules/Hostname/OtherLines.antt =====
-- What stays of `/etc/hosts`.
use cloud_init_rs.Prelude.{
  ◌≡◌, refl, ◌∙◌, ◌⊎◌, inl, inr, Bool, true, false, not, ◌&&◌, List, [], ◌∷◌, map, arith,
  Bool-cases, any, keep,
}
use cloud_init_rs.Prelude.Texts.{Text, lit, ◌==◌, strip_prefix, starts_with}
use cloud_init_rs.Modules.Hostname.{
  with_loopback, has_ip, loopback, own_entry, rewritten, after_first, insert_after, hosts_lines,
}

-- A line that is no entry for the two addresses, and none as the program writes them.
pub is_other : Text → Bool
is_other l =
    not (starts_with l (lit "127.0.0.1 "))
    && (not (starts_with l (lit "127.0.1.1 "))
        && (not (has_ip (lit "127.0.0.1") l) && not (has_ip (lit "127.0.1.1") l)))

loopback-is_other : (hostname : Text) → is_other (loopback hostname) ≡ false
unfolding loopback is_other starts_with strip_prefix lit
loopback-is_other hostname = refl

own_entry-is_other : (hostname fqdn : Text) → is_other (own_entry hostname fqdn) ≡ false
unfolding own_entry is_other starts_with strip_prefix lit
own_entry-is_other hostname fqdn = elim (Bool-cases (fqdn == hostname)) [
  | inl same ↦ rw same refl
  | inr other ↦ rw other refl
]

entry-is_other :
    (l : Text)
    → (has_ip (lit "127.0.0.1") l ≡ true) ⊎ (has_ip (lit "127.0.1.1") l ≡ true)
    → is_other l ≡ false
unfolding is_other
entry-is_other l (inl e) = ground arith
entry-is_other l (inr e) = ground arith

rewritten_first :
    (hostname fqdn l : Text)
    → has_ip (lit "127.0.0.1") l ≡ true
    → rewritten hostname fqdn l ≡ loopback hostname
unfolding rewritten
rewritten_first hostname fqdn l e = rw e refl

rewritten_second :
    (hostname fqdn l : Text)
    → has_ip (lit "127.0.0.1") l ≡ false
    → has_ip (lit "127.0.1.1") l ≡ true
    → rewritten hostname fqdn l ≡ own_entry hostname fqdn
unfolding rewritten
rewritten_second hostname fqdn l e f = rw (e, f) refl

rewritten_other :
    (hostname fqdn l : Text)
    → has_ip (lit "127.0.0.1") l ≡ false
    → has_ip (lit "127.0.1.1") l ≡ false
    → rewritten hostname fqdn l ≡ l
unfolding rewritten
rewritten_other hostname fqdn l e f = rw (e, f) refl

keep-rewritten :
    (hostname fqdn : Text) (ls : List Text)
    → keep is_other (map (rewritten hostname fqdn) ls) ≡ keep is_other ls
keep-rewritten hostname fqdn [] = refl
keep-rewritten hostname fqdn (l ∷ ls) =
    let rest = keep-rewritten hostname fqdn ls in
    elim (Bool-cases (has_ip (lit "127.0.0.1") l)) [
      | inl first ↦
          rw
            (
              rewritten_first hostname fqdn l first,
              loopback-is_other hostname,
              entry-is_other l (inl first),
            )
            rest
      | inr no_first ↦ elim (Bool-cases (has_ip (lit "127.0.1.1") l)) [
        | inl second ↦
            rw
              (
                rewritten_second hostname fqdn l no_first second,
                own_entry-is_other hostname fqdn,
                entry-is_other l (inr second),
              )
              rest
        | inr no_second ↦ rw (rewritten_other hostname fqdn l no_first no_second, rest) refl
      ]
    ]

keep-after_first :
    (p : Text → Bool) (x : Text) (ls : List Text)
    → is_other x ≡ false
    → keep is_other (after_first p x ls) ≡ keep is_other ls
unfolding after_first
keep-after_first p x [] h = refl
keep-after_first p x (l ∷ ls) h = elim (Bool-cases (p l)) [
  | inl found ↦ rw (found, h) refl
  | inr other ↦ rw (other, keep-after_first p x ls h) refl
]

keep-insert_after :
    (p : Text → Bool) (x : Text) (ls : List Text)
    → is_other x ≡ false
    → keep is_other (insert_after p x ls) ≡ keep is_other ls
unfolding insert_after
keep-insert_after p x ls h = elim (Bool-cases (any p ls)) [
  | inl found ↦ rw found (keep-after_first p x ls h)
  | inr none_found ↦ rw (none_found, h) refl
]

-- Updating the hosts file keeps every line that is no entry for 127.0.0.1 or 127.0.1.1, and none
-- as the program writes them, as it is and in its order, and adds no such line.
pub hosts_lines-keep :
    (hostname fqdn : Text) (existing : List Text)
    → keep is_other (hosts_lines hostname fqdn existing) ≡ keep is_other existing
unfolding hosts_lines with_loopback
hosts_lines-keep hostname fqdn existing =
    let new_lines = map (rewritten hostname fqdn) existing in
    let found : keep is_other (with_loopback hostname fqdn existing) ≡ keep is_other existing =
      elim (Bool-cases (any (has_ip (lit "127.0.0.1")) existing)) [
        | inl there ↦ rw (there, with_loopback) (keep-rewritten hostname fqdn existing)
        | inr gone ↦
            rw (gone, loopback-is_other hostname, with_loopback)
              (keep-rewritten hostname fqdn existing)
      ] in
    elim (Bool-cases (not (any (has_ip (lit "127.0.1.1")) existing) && not (fqdn == hostname))) [
      | inl adding ↦ rw adding (
          keep-insert_after (λ l. starts_with l (lit "127.0.0.1")) (own_entry hostname fqdn)
            (with_loopback hostname fqdn existing) (own_entry-is_other hostname fqdn)
          ∙ found)
      | inr not_adding ↦ rw not_adding found
    ]
