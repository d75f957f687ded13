-- ===== src/Modules/Hostname/Tests.antt =====
-- A file with an entry for another host.
use cloud_init_rs.Prelude.{◌≡◌, List, [], ◌∷◌, keep}
use cloud_init_rs.Prelude.Texts.{Text, lit}
use cloud_init_rs.Modules.Hostname.{hosts_lines}
use cloud_init_rs.Modules.Hostname.OtherLines.{is_other, hosts_lines-keep}

abbrev existing : List Text
existing = lit "127.0.0.1 localhost" ∷ lit "10.0.0.2 db" ∷ []

hosts_lines-keep_example :
    keep is_other (hosts_lines (lit "box") (lit "box.lan") existing) ≡ keep is_other existing
hosts_lines-keep_example = hosts_lines-keep (lit "box") (lit "box.lan") existing
