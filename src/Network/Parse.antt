-- ===== src/Network/Parse.antt =====
-- `NetworkConfig::from_yaml`, `NetworkConfigV1::from_yaml` and `parse_network_config`.
-- What `serde_yaml` reads a text as is an argument, for each type that the program asks for.
use cloud_init_rs.Prelude.{
  ℕ, Bool, true, false, Option, none, some, [], eqb, if◌then◌else◌, unwrap_or,
}
use cloud_init_rs.Prelude.Texts.{Text}
use cloud_init_rs.Result.{Result, ok, err}
use cloud_init_rs.Network.Types.{NetworkConfig}
use cloud_init_rs.Network.V1.{NetworkConfigV1}
use cloud_init_rs.Network.V1.Convert.{to_v2}

-- `VersionCheck`: a version, and perhaps another such section under `network`.
pub data VersionCheck : Type 0 where
  plain : Option ℕ → VersionCheck
  nested : Option ℕ → VersionCheck → VersionCheck

pub record NetworkSerde : Type 0 where
  pub version_check : Text → Result VersionCheck Text
  -- the two readings of version 1: under `network`, and at the top
  pub v1_wrapper : Text → Result (Option NetworkConfigV1 × Option NetworkConfigV1) Text
  pub v2_wrapper : Text → Result NetworkConfig Text
  pub v2 : Text → Result NetworkConfig Text

abbrev default_v1 : NetworkConfigV1
default_v1 = record { version = 0; config = [] }

v1_of : Option NetworkConfigV1 × Option NetworkConfigV1 → NetworkConfigV1
v1_of (some network, config) = network
v1_of (none, some config) = config
v1_of (none, none) = default_v1

own_version : VersionCheck → Option ℕ
own_version (plain v) = v
own_version (nested v c) = v

-- The version at the top, or else that under `network`, or else 2.
pub version_of : VersionCheck → ℕ
unfolding own_version
version_of (plain v) = unwrap_or v 2
version_of (nested (some v) c) = v
version_of (nested none c) = unwrap_or (own_version c) 2

is_nested : VersionCheck → Bool
is_nested (plain v) = false
is_nested (nested v c) = true

module _ (serde : NetworkSerde) where
  v1_from_yaml : Text → Result NetworkConfigV1 Text
  unfolding v1_of
  v1_from_yaml yaml = elim (serde.v1_wrapper yaml) [ ok w ↦ ok (v1_of w) | err e ↦ err e ]

  from_yaml : Text → Result NetworkConfig Text
  unfolding is_nested
  from_yaml yaml = elim (serde.version_check yaml) [
    | err e ↦ err e
    | ok check ↦ if is_nested check then serde.v2_wrapper yaml else serde.v2 yaml
  ]

  unfoldable pub parse_network_config : Text → Result NetworkConfig Text
  unfolding version_of v1_from_yaml from_yaml to_v2
  parse_network_config yaml = elim (serde.version_check yaml) [
    | err e ↦ err e
    | ok check ↦
        if eqb (version_of check) 1
        then elim (v1_from_yaml yaml) [ err e ↦ err e | ok v1 ↦ ok (to_v2 v1) ]
        else from_yaml yaml
  ]
