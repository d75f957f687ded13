-- ===== src/Datasources/Types.antt =====
-- `InstanceMetadata` of src/lib.rs and the trait `Datasource` of src/datasources/mod.rs.
use cloud_init_rs.Result.{ok}
use cloud_init_rs.Prelude.{Bool, Option, none, some}
use cloud_init_rs.Prelude.Texts.{Text}
use cloud_init_rs.Result.{Result, Error, Exec, pure}
use cloud_init_rs.Userdata.Types.{UserData}

pub record InstanceMetadata : Type 0 where
  pub instance_id : Option Text
  pub local_hostname : Option Text
  pub region : Option Text
  pub availability_zone : Option Text
  pub cloud_name : Option Text
  pub platform : Option Text
  pub instance_type : Option Text

-- `Default`
abbrev pub default_metadata : InstanceMetadata
default_metadata = record {
  instance_id = none;
  local_hostname = none;
  region = none;
  availability_zone = none;
  cloud_name = none;
  platform = none;
  instance_type = none;
}

-- An action that may panic, which is `none`.
abbrev pub Panicking : Type 0 → Type 0 → Type 0
Panicking S A = S → Option (Result A Error) × S

abbrev pub no_panic : {S A : Type 0} → Exec S A → Panicking S A
no_panic m s = let (r, s') = m s in (some r, s')

-- An action that cannot fail, among those that can.
abbrev pub asked : {S A : Type 0} → (S → A × S) → Exec S A
asked m s = let (a, s') = m s in (ok a, s')

pub record Datasource (S : Type 0) : Type 0 where
  pub name : Text
  pub is_available : S → Bool × S
  pub get_metadata : Panicking S InstanceMetadata
  pub get_userdata : Exec S UserData

-- The default method `get_vendordata`, which no datasource replaces.
get_vendordata : {S : Type 0} → Datasource S → Exec S (Option UserData)
get_vendordata d = pure none
