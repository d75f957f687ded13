-- ===== src/Modules.antt =====
-- src/modules: what a cloud-config makes the machine do.
pub mod Runcmd
pub mod Groups
pub mod WriteFiles
pub mod SshKeys
pub mod Users
pub mod Packages
pub mod Hostname
pub mod Timezone
pub mod Locale
pub mod Ntp
pub mod Bootcmd
pub mod YumAddRepo
pub mod RhSubscription
