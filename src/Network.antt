-- ===== src/Network.antt =====
-- src/network: the network configuration, its legacy format and its renderers.
pub mod Types
pub mod Netmask
pub mod V1
pub mod Render
pub mod Parse
