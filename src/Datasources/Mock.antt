-- ===== src/Datasources/Mock.antt =====
-- src/datasources/mock.rs
use cloud_init_rs.Prelude.{Bool, true, Option, none, some, unwrap_or}
use cloud_init_rs.Prelude.Texts.{Text, lit}
use cloud_init_rs.Result.{Result, ok, err, Error}
use cloud_init_rs.Result.{datasource}
use cloud_init_rs.Config.Types.{Serde, from_yaml}
use cloud_init_rs.Userdata.Types.{UserData, no_data}
use cloud_init_rs.Datasources.Types.{InstanceMetadata, default_metadata, Datasource, no_panic}

pub record MockDatasource : Type 0 where
  pub name : Text
  pub available : Bool
  pub metadata : Option InstanceMetadata
  pub userdata : Option UserData
  pub metadata_error : Option Text
  pub userdata_error : Option Text

unfoldable pub new : MockDatasource
unfolding lit
new = record {
  name = lit "Mock";
  available = true;
  metadata = none;
  userdata = none;
  metadata_error = none;
  userdata_error = none;
}

unfoldable pub with_name : Text → MockDatasource → MockDatasource
with_name name m = record m { name = name }

unfoldable pub with_available : Bool → MockDatasource → MockDatasource
with_available available m = record m { available = available }

with_metadata : InstanceMetadata → MockDatasource → MockDatasource
with_metadata metadata m = record m { metadata = some metadata }

with_userdata : UserData → MockDatasource → MockDatasource
with_userdata userdata m = record m { userdata = some userdata }

with_cloud_config : Serde → Text → MockDatasource → MockDatasource
unfolding from_yaml
with_cloud_config serde yaml m = elim (from_yaml serde yaml) [
  | ok config ↦ record m { userdata = some (UserData.cloud_config config) }
  | err e ↦ record m { userdata_error = some e }
]

with_script : Text → MockDatasource → MockDatasource
with_script script m = record m { userdata = some (UserData.script script) }

with_metadata_error : Text → MockDatasource → MockDatasource
with_metadata_error error m = record m { metadata_error = some error }

with_userdata_error : Text → MockDatasource → MockDatasource
with_userdata_error error m = record m { userdata_error = some error }

-- An error that was set comes before what was set.
answer {ℓ} : {A : Type ℓ} → Option Text → A → Result A Error
answer none a = ok a
answer (some e) a = err (datasource e)

unfoldable pub mock_datasource : {S : Type 0} → MockDatasource → Datasource S
unfolding answer
mock_datasource m = record {
  name = m.name;
  is_available = λ s. (m.available, s);
  get_metadata =
      no_panic (λ s. (answer m.metadata_error (unwrap_or m.metadata default_metadata), s));
  get_userdata = λ s. (answer m.userdata_error (unwrap_or m.userdata no_data), s);
}
