-- ===== src/Stages/LocalStage.antt =====
-- src/stages/local.rs
pub mod Tests
pub mod Sources
use cloud_init_rs.Result.{◌>>=◌}
use cloud_init_rs.Prelude.{ℕ, not, List, [], ◌∷◌, ◌++◌, if◌then◌else◌}
use cloud_init_rs.Prelude.Texts.{Text, lit}
use cloud_init_rs.Result.{Result, ok, err, Exec, pure, raise, query, ignore}
use cloud_init_rs.Result.{invalid_data}
use cloud_init_rs.Os.{Os}
use cloud_init_rs.Network.Types.{NetworkConfig, has_interfaces}
use cloud_init_rs.Network.Parse.{NetworkSerde, parse_network_config}
use cloud_init_rs.Network.Render.Apply.{apply_network_config}
use cloud_init_rs.State.Instance.{new_state, load_cached_instance_id}

pub config_paths : List Text
unfolding lit
config_paths =
    lit "/etc/cloud/cloud.cfg.d/50-curtin-networking.cfg"
    ∷ lit "/etc/cloud/cloud.cfg.d/network-config"
    ∷ lit "/var/lib/cloud/seed/nocloud/network-config"
    ∷ lit "/var/lib/cloud/seed/nocloud-net/network-config"
    ∷ []

-- The tables that the renderers use: Unicode's case table, and the random UUIDs.
pub record Tables : Type 0 where
  pub fold : ℕ → Text
  pub uuid : ℕ → Text

module _ (os : Os) (serde : NetworkSerde) (tables : Tables) where
  pub apply_parsed : Result NetworkConfig Text → Exec os.World (Unit {0})
  unfolding has_interfaces lit
  apply_parsed (err e) = raise (invalid_data (lit "Failed to parse network config: " ++ e))
  apply_parsed (ok config) =
      if not (has_interfaces config)
      then pure tt
      else apply_network_config os tables.fold tables.uuid config config.renderer

  pub apply_network_from_content : Text → Exec os.World (Unit {0})
  unfolding apply_parsed parse_network_config
  apply_network_from_content content = apply_parsed (parse_network_config serde content)

  -- What a file that was read, or could not be, makes of the rest of the loop.
  pub apply_or_next : Result Text Text → Exec os.World (Unit {0}) → Exec os.World (Unit {0})
  unfolding apply_network_from_content
  apply_or_next (ok content) next = apply_network_from_content content
  apply_or_next (err e) next = next

  -- The loop over the paths, with what comes after it.
  pub try_paths : List Text → Exec os.World (Unit {0})
  unfolding apply_or_next
  try_paths [] = ignore (load_cached_instance_id os new_state)
  try_paths (p ∷ ps) = do
    there ← query (os.exists p)
    content ← query (os.read_to_string p)
    if there then apply_or_next content (try_paths ps) else try_paths ps

  pub apply_network_configuration : Exec os.World (Unit {0})
  unfolding try_paths config_paths
  apply_network_configuration = try_paths config_paths

  -- The other steps of the stage, `check_nocloud_datasource`, `grow_partition` and
  -- `resize_filesystem`, only log.
  unfoldable pub run : Exec os.World (Unit {0})
  unfolding apply_network_configuration
  run = apply_network_configuration
