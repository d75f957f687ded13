-- ===== src/Network/Render/Tests.antt =====
-- The renderers on a small configuration.
use cloud_init_rs.Prelude.{ℕ, ◌≡◌, refl, true, none, some, [], ◌∷◌, map}
use cloud_init_rs.Prelude.Texts.{Text, lit, decimal}
use cloud_init_rs.Result.{ok, for_each}
use cloud_init_rs.Os.Memory.{
  Files, no_files, memory, memory_WriteLaws, memory_ChmodLaws, memory_KeepLaws,
}
use cloud_init_rs.State.Paths.{path_join, path_parent}
use cloud_init_rs.State.Semaphore.{create_parent}
use cloud_init_rs.Network.Types.{default_network, default_common, NetworkConfig}
use cloud_init_rs.Network.Render.{networkd, from_hint}
use cloud_init_rs.Network.Render.Networkd.{render, two_digits}
use cloud_init_rs.Network.Render.Networkd.Files.{
  interfaces, all_names, label, readable, render-names,
}
use cloud_init_rs.Network.Render.Networkd.Distinct.{Distinct}
use cloud_init_rs.Network.Render.Apply.{apply_network_config, choose, reload, write_file}
use cloud_init_rs.Network.Render.Apply.Written.{AllWritten, apply_network_config-AllWritten}

abbrev small : NetworkConfig
small = record default_network {
  ethernets =
      (
        lit "eth0",
        record { common = record default_common { dhcp4 = some true }; match_config = none },
      )
      ∷ [];
  vlans = (lit "v", record { common = default_common; id = 5; link = lit "eth0" }) ∷ [];
}

abbrev no_fold : ℕ → Text
no_fold n = n ∷ []

-- The machine after networkd is asked for.
abbrev networked : Files
networked = (apply_network_config memory no_fold no_fold small (some (lit "networkd")) no_files).1

small_names :
    map (λ f. f.path) (render small)
    ≡ lit "10-eth0.network"
      ∷ lit "20-v.netdev"
      ∷ lit "20-v.network"
      ∷ lit "21-eth0-vlan.network"
      ∷ []
unfolding render two_digits decimal lit
small_names = refl

render-names_example : map label (render small) ≡ map readable (all_names 10 (interfaces small))
render-names_example = render-names small

apply_network_config-AllWritten_example :
    (v : Files) × Distinct (map (λ f. f.path) (render small))
    × AllWritten memory (lit "/etc/systemd/network") (render small) v
    × (reload memory networkd v ≡ (ok tt, networked))
unfolding apply_network_config from_hint choose write_file create_parent path_parent reload for_each
    render path_join two_digits decimal lit
apply_network_config-AllWritten_example =
    apply_network_config-AllWritten memory memory_WriteLaws memory_ChmodLaws memory_KeepLaws no_fold
      no_fold small (some (lit "networkd")) no_files networked refl refl
