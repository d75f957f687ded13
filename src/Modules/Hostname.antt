-- ===== src/Modules/Hostname.antt =====
-- src/modules/hostname.rs
pub mod OtherLines
mod Tests
use cloud_init_rs.Result.{◌>>=◌}
use cloud_init_rs.Result.{◌>>◌}
use cloud_init_rs.Prelude.Texts.{lines}
use cloud_init_rs.Prelude.Texts.{split_whitespace}
use cloud_init_rs.Prelude.{
  Bool, false, not, ◌&&◌, ◌||◌, Option, none, some, List, [], ◌∷◌, ◌++◌, map, if◌then◌else◌,
  is_empty, any, unwrap_or,
}
use cloud_init_rs.Prelude.Texts.{Text, lit, ◌==◌, starts_with, trim, join}
use cloud_init_rs.Result.{Result, ok, err, Exec, pure, raise, query, map_err, when}
use cloud_init_rs.Result.{io, command}
use cloud_init_rs.Os.{Os, command_of, success, try_command, run_command}

-- The first word of a line of `/etc/hosts`, unless it is empty or a comment.
pub ip_of : Text → Option Text
unfolding trim starts_with split_whitespace lit
ip_of line =
    let trimmed = trim line in
    if is_empty trimmed || starts_with trimmed (lit "#")
    then none
    else elim (split_whitespace trimmed) [ [] ↦ none | ip ∷ more ↦ some ip ]

pub has_ip : Text → Text → Bool
unfolding ip_of ◌==◌
has_ip ip line = elim (ip_of line) [ none ↦ false | some found ↦ found == ip ]

pub loopback : Text → Text
unfolding lit
loopback hostname = lit "127.0.0.1 localhost " ++ hostname

pub own_entry : Text → Text → Text
unfolding lit ◌==◌
own_entry hostname fqdn =
    if fqdn == hostname
    then lit "127.0.1.1 " ++ hostname
    else lit "127.0.1.1 " ++ (fqdn ++ (lit " " ++ hostname))

-- A line of the file, rewritten if it is one of the two entries.
pub rewritten : Text → Text → Text → Text
rewritten hostname fqdn line =
    if has_ip (lit "127.0.0.1") line
    then loopback hostname
    else if has_ip (lit "127.0.1.1") line
    then own_entry hostname fqdn
    else line

-- `insert(position(p).map(|i| i + 1).unwrap_or(0), x)`
pub after_first : (Text → Bool) → Text → List Text → List Text
after_first p x [] = []
after_first p x (l ∷ ls) = let rest = after_first p x ls in if p l then l ∷ x ∷ ls else l ∷ rest

pub insert_after : (Text → Bool) → Text → List Text → List Text
unfolding after_first
insert_after p x ls = if any p ls then after_first p x ls else x ∷ ls

-- The lines after the loop, with the entry for the host itself in front if there was none.
pub with_loopback : Text → Text → List Text → List Text
with_loopback hostname fqdn existing =
    let new_lines = map (rewritten hostname fqdn) existing in
    if any (has_ip (lit "127.0.0.1")) existing then new_lines else loopback hostname ∷ new_lines

pub hosts_lines : Text → Text → List Text → List Text
hosts_lines hostname fqdn existing =
    if not (any (has_ip (lit "127.0.1.1")) existing) && not (fqdn == hostname)
    then insert_after (λ l. starts_with l (lit "127.0.0.1")) (own_entry hostname fqdn)
        (with_loopback hostname fqdn existing)
    else with_loopback hostname fqdn existing

build_hosts_content : Text → Text → Text → Text
unfolding hosts_lines lines join lit
build_hosts_content existing hostname fqdn =
    join (lit "\n") (hosts_lines hostname fqdn (lines existing)) ++ lit "\n"

-- `unwrap_or_else(|_| String::new())`
abbrev or_empty : Result Text Text → Text
or_empty (ok t) = t
or_empty (err e) = []

module _ (os : Os) where
  set_hostname : Text → Exec os.World (Unit {0})
  unfolding try_command lit
  set_hostname hostname = do
    map_err (os.write (lit "/etc/hostname") (hostname ++ lit "\n")) io
    done ← try_command os (command_of (lit "hostnamectl") (lit "set-hostname" ∷ hostname ∷ []))
    if done then pure tt else do
      o ← run_command os (command_of (lit "hostname") (hostname ∷ []))
      when (not (success o)) (raise (command (lit "Failed to set hostname: " ++ o.stderr)))

  update_etc_hosts : Text → Text → Exec os.World (Unit {0})
  unfolding build_hosts_content lit
  update_etc_hosts hostname fqdn = do
    existing ← query (λ w. or_empty (os.read_to_string (lit "/etc/hosts") w))
    map_err (os.write (lit "/etc/hosts") (build_hosts_content existing hostname fqdn)) io

  unfoldable pub set_hostname_fqdn : Text → Option Text → Bool → Exec os.World (Unit {0})
  unfolding set_hostname update_etc_hosts
  set_hostname_fqdn hostname fqdn manage_etc_hosts = do
    set_hostname hostname
    when manage_etc_hosts (update_etc_hosts hostname (unwrap_or fqdn hostname))
