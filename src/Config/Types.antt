-- ===== src/Config/Types.antt =====
-- The data of src/config/mod.rs, and the parsing of a cloud-config. `serde_yaml` is an interface.
use cloud_init_rs.Prelude.{ℕ, Bool, Option, none, some, List, []}
use cloud_init_rs.Prelude.Texts.{Text, lit, strip_prefix, starts_with, trim_start}
use cloud_init_rs.Result.{Result}
use cloud_init_rs.Network.Types.{HashMap, NetworkConfig}
use cloud_init_rs.Config.Yaml.{Value}

pub record UserFullConfig : Type 0 where
  pub name : Text
  pub gecos : Option Text
  pub homedir : Option Text
  pub primary_group : Option Text
  pub groups : List Text
  pub shell : Option Text
  pub sudo : Option Text
  pub lock_passwd : Option Bool
  pub passwd : Option Text
  pub ssh_authorized_keys : List Text
  pub ssh_import_id : Option (List Text)
  pub system : Option Bool
  pub uid : Option ℕ

pub data UserConfig : Type 0 where
  name : Text → UserConfig
  full : UserFullConfig → UserConfig

pub data GroupConfig : Type 0 where
  name : Text → GroupConfig
  with_members : Text → List Text → GroupConfig

pub record WriteFileConfig : Type 0 where
  pub path : Text
  pub content : Text
  pub encoding : Option Text
  pub owner : Option Text
  pub permissions : Option Text
  pub append : Option Bool
  pub defer : Option Bool

pub data RunCmd : Type 0 where
  shell : Text → RunCmd
  args : List Text → RunCmd

pub data ErrorHandlingMode : Type 0 where
  continue abort : ErrorHandlingMode

pub record RuncmdConfig : Type 0 where
  pub shell : Option Text
  pub error_handling : Option ErrorHandlingMode

pub record SshConfig : Type 0 where
  pub emit_keys_to_console : Option Bool
  pub ssh_authorized_keys : List Text

pub record GrowpartConfig : Type 0 where
  pub mode : Option Text
  pub devices : Option (List Text)
  pub ignore_growroot_disabled : Option Bool

pub record PhoneHomeConfig : Type 0 where
  pub url : Text
  pub post : Option (List Text)
  pub tries : Option ℕ

pub record NtpConfig : Type 0 where
  pub enabled : Option Bool
  pub servers : List Text
  pub pools : List Text

pub record RhSubscriptionConfig : Type 0 where
  pub username : Option Text
  pub password : Option Text
  pub activation_key : Option Text
  pub org : Option Text
  pub auto_attach : Option Bool
  pub service_level : Option Text
  pub rhsm_baseurl : Option Text
  pub server_hostname : Option Text
  pub add_pool : List Text
  pub enable_repo : List Text
  pub disable_repo : List Text

pub record YumRepoConfig : Type 0 where
  pub name : Option Text
  pub baseurl : Option Text
  pub mirrorlist : Option Text
  pub metalink : Option Text
  pub enabled : Option Bool
  pub gpgcheck : Option Bool
  pub gpgkey : Option Text
  pub priority : Option ℕ
  pub failovermethod : Option Text
  pub sslverify : Option Bool
  pub sslclientcert : Option Text
  pub sslclientkey : Option Text
  pub sslcacert : Option Text

pub record CloudConfig : Type 0 where
  pub hostname : Option Text
  pub fqdn : Option Text
  pub manage_etc_hosts : Option Bool
  pub users : List UserConfig
  pub groups : List GroupConfig
  pub write_files : List WriteFileConfig
  pub bootcmd : List RunCmd
  pub runcmd : List RunCmd
  pub runcmd_config : Option RuncmdConfig
  pub packages : List Text
  pub package_upgrade : Option Bool
  pub package_update : Option Bool
  pub ssh : Option SshConfig
  pub ssh_authorized_keys : List Text
  pub timezone : Option Text
  pub locale : Option Text
  pub ntp : Option NtpConfig
  pub growpart : Option GrowpartConfig
  pub resize_rootfs : Option Bool
  pub phone_home : Option PhoneHomeConfig
  pub final_message : Option Text
  pub network : Option NetworkConfig
  pub rh_subscription : Option RhSubscriptionConfig
  pub yum_repos : HashMap YumRepoConfig

-- `CloudConfig::default`
abbrev pub default_config : CloudConfig
default_config = record {
  hostname = none;
  fqdn = none;
  manage_etc_hosts = none;
  users = [];
  groups = [];
  write_files = [];
  bootcmd = [];
  runcmd = [];
  runcmd_config = none;
  packages = [];
  package_upgrade = none;
  package_update = none;
  ssh = none;
  ssh_authorized_keys = [];
  timezone = none;
  locale = none;
  ntp = none;
  growpart = none;
  resize_rootfs = none;
  phone_home = none;
  final_message = none;
  network = none;
  rh_subscription = none;
  yum_repos = [];
}

-- What the program uses of `serde_yaml`; an error is given by its message.
pub record Serde : Type 0 where
  pub from_str : Text → Result CloudConfig Text
  pub to_value : CloudConfig → Result Value Text
  pub from_value : Value → Result CloudConfig Text
  pub value_eq : Value → Value → Bool

-- `CloudConfig::from_yaml`
unfoldable pub from_yaml : Serde → Text → Result CloudConfig Text
unfolding strip_prefix trim_start lit
from_yaml serde yaml = elim (strip_prefix (lit "#cloud-config") yaml) [
  | none ↦ serde.from_str yaml
  | some s ↦ serde.from_str (trim_start s)
]

-- `CloudConfig::is_cloud_config`
unfoldable pub is_cloud_config : Text → Bool
unfolding starts_with trim_start lit
is_cloud_config data_text = starts_with (trim_start data_text) (lit "#cloud-config")
