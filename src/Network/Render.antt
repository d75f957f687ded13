-- ===== src/Network/Render.antt =====
-- src/network/render/mod.rs: which renderer writes the configuration.
pub mod Networkd
pub mod NetworkManager
pub mod Eni
pub mod Apply
mod Tests
use cloud_init_rs.Prelude.Texts.{to_lowercase}
use cloud_init_rs.Prelude.{
  ℕ, Bool, true, false, ◌&&◌, ◌||◌, Option, none, some, List, [], ◌∷◌, ◌++◌, if◌then◌else◌,
}
use cloud_init_rs.Prelude.Texts.{Text, lit, ◌==◌}
use cloud_init_rs.Os.{Os}

pub data RendererType : Type 0 where
  networkd network_manager eni : RendererType

pub record RenderedFile : Type 0 where
  pub path : Text
  pub content : Text
  pub mode : ℕ

-- `RendererType::from_hint`
unfoldable pub from_hint : (ℕ → Text) → Text → Option RendererType
unfolding to_lowercase lit ◌==◌
from_hint fold hint =
    let h = to_lowercase fold hint in
    if h == lit "networkd" || h == lit "systemd-networkd"
    then some networkd
    else if h == lit "networkmanager" || h == lit "network-manager" || h == lit "nm"
    then some network_manager
    else if h == lit "eni" || h == lit "interfaces" || h == lit "ifupdown"
    then some eni
    else none

-- `RendererType::detect`
unfoldable pub detect : (os : Os) → os.World → Option RendererType
detect os w =
    if os.exists (lit "/run/systemd/system") w && os.exists (lit "/lib/systemd/systemd-networkd") w
    then some networkd
    else if os.exists (lit "/usr/sbin/NetworkManager") w || os.exists (lit "/usr/bin/nmcli") w
    then some network_manager
    else if os.exists (lit "/etc/network/interfaces") w
    then some eni
    else none

-- The lines for a value that may be missing.
abbrev pub for_some {ℓ} : {A : Type ℓ} → Option A → (A → List Text) → List Text
for_some none f = []
for_some (some a) f = f a

abbrev pub is_true : Option Bool → Bool
is_true (some true) = true
is_true _ = false

-- `key=value`
abbrev pub setting : Text → Text → List Text
setting key value = (key ++ value) ∷ []
