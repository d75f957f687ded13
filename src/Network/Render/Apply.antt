-- ===== src/Network/Render/Apply.antt =====
-- `apply_network_config` of src/network/render/mod.rs.
pub mod Written
use cloud_init_rs.Result.{◌>>=◌}
use cloud_init_rs.Result.{◌>>◌}
use cloud_init_rs.Prelude.{ℕ, Option, none, some, List, [], ◌∷◌, if◌then◌else◌}
use cloud_init_rs.Prelude.Texts.{Text, lit}
use cloud_init_rs.Result.{ok, err, Exec, pure, raise, query, map_err, ignore, for_each}
use cloud_init_rs.Result.{io, module_error, attempt}
use cloud_init_rs.Os.{Os, command_of, success}
use cloud_init_rs.State.Paths.{path_join}
use cloud_init_rs.State.Semaphore.{create_parent}
use cloud_init_rs.Network.Types.{NetworkConfig}
use cloud_init_rs.Network.Render.{
  RendererType, networkd, network_manager, eni, RenderedFile, from_hint, detect,
}
use cloud_init_rs.Network.Render.Networkd
use cloud_init_rs.Network.Render.NetworkManager
use cloud_init_rs.Network.Render.Eni

unfoldable pub output_dir : RendererType → Text
output_dir networkd = lit "/etc/systemd/network"
output_dir network_manager = lit "/etc/NetworkManager/system-connections"
output_dir eni = lit "/etc/network"

unfoldable pub render_with : RendererType → NetworkConfig → (ℕ → Text) → List RenderedFile
render_with networkd config uuid = Networkd.render config
render_with network_manager config uuid = NetworkManager.render config uuid
render_with eni config uuid = Eni.render config

module _ (os : Os) where
  open os use {World}

  -- The hint, then the configuration's renderer, then what the system has.
  unfoldable pub choose : (ℕ → Text) → NetworkConfig → Option Text → World → Option RendererType
  choose fold config hint w = elim hint [
    | some h ↦ from_hint fold h
    | none ↦ elim config.renderer [ some h ↦ from_hint fold h | none ↦ detect os w ]
  ]

  unfoldable pub write_file : Text → RenderedFile → Exec World (Unit {0})
  write_file dir file = do
    let full_path = path_join dir file.path
    create_parent os full_path
    map_err (os.write full_path file.content) io
    map_err (os.set_permissions full_path file.mode) io

  reload_networkd : Exec World (Unit {0})
  reload_networkd = do
    result ← attempt (os.output (command_of (lit "networkctl") (lit "reload" ∷ [])))
    elim result [
      | ok o ↦
          if success o
          then pure tt
          else ignore (
              map_err
                (os.output
                  (command_of (lit "systemctl") (lit "restart" ∷ lit "systemd-networkd" ∷ [])))
                io)
      | err e ↦ pure tt
    ]

  reload_network_manager : Exec World (Unit {0})
  reload_network_manager =
      ignore
        (map_err (os.output (command_of (lit "nmcli") (lit "connection" ∷ lit "reload" ∷ []))) io)

  unfoldable pub reload : RendererType → Exec World (Unit {0})
  unfolding reload_networkd reload_network_manager
  reload networkd = reload_networkd
  reload network_manager = reload_network_manager
  reload eni = pure tt

  unfoldable pub apply_network_config :
      (ℕ → Text) → (ℕ → Text) → NetworkConfig → Option Text → Exec World (Unit {0})
  unfolding choose write_file reload render_with output_dir
  apply_network_config fold uuid config hint = do
    chosen ← query (choose fold config hint)
    elim chosen [
      | none ↦ raise (module_error (lit "network") (lit "No suitable network renderer found"))
      | some r ↦ do for_each (write_file (output_dir r)) (render_with r config uuid); reload r
    ]
