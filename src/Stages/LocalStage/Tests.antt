-- ===== src/Stages/LocalStage/Tests.antt =====
-- The network configuration on a machine with the second of the four files.
use cloud_init_rs.Prelude.{◌≡◌, refl, inl, none, some, [], ◌∷◌, if◌then◌else◌}
use cloud_init_rs.Prelude.Texts.{Text, lit, ◌==◌}
use cloud_init_rs.Result.{err}
use cloud_init_rs.Os.Memory.{Files, memory}
use cloud_init_rs.Network.Parse.{NetworkSerde}
use cloud_init_rs.Stages.LocalStage.{
  Tables, config_paths, apply_network_configuration, apply_network_from_content,
}
use cloud_init_rs.Stages.LocalStage.Sources.{apply_network_configuration-first}

abbrev pub no_network : NetworkSerde
no_network = record {
  version_check = λ t. err (lit "bad");
  v1_wrapper = λ t. err (lit "bad");
  v2_wrapper = λ t. err (lit "bad");
  v2 = λ t. err (lit "bad");
}

abbrev pub plain_tables : Tables
plain_tables = record { fold = λ c. c ∷ []; uuid = λ n. [] }

abbrev second : Text
second = lit "/etc/cloud/cloud.cfg.d/network-config"

abbrev machine : Files
machine p = if p == second then some (lit "x") else none

apply_network_configuration-first_example :
    apply_network_configuration memory no_network plain_tables machine
    ≡ apply_network_from_content memory no_network plain_tables (lit "x") machine
unfolding config_paths ◌==◌ lit
apply_network_configuration-first_example =
    apply_network_configuration-first memory no_network plain_tables
      (lit "/etc/cloud/cloud.cfg.d/50-curtin-networking.cfg" ∷ []) second
      (lit "/var/lib/cloud/seed/nocloud/network-config"
        ∷ lit "/var/lib/cloud/seed/nocloud-net/network-config"
        ∷ [])
      (lit "x") machine refl (inl refl, tt) refl refl
