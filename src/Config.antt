-- ===== src/Config.antt =====
-- src/config: the cloud-config, its merging and its loading.
pub mod Types
pub mod Yaml
pub mod Merge
pub mod Loader
