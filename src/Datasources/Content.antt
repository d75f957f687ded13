-- ===== src/Datasources/Content.antt =====
-- What the datasources take user-data for: the same code in each `get_userdata`.
use cloud_init_rs.Prelude.{if◌then◌else◌}
use cloud_init_rs.Prelude.Texts.{Text, lit, starts_with}
use cloud_init_rs.Result.{Result, ok, err, Error}
use cloud_init_rs.Result.{yaml}
use cloud_init_rs.Config.Types.{Serde, from_yaml, is_cloud_config}
use cloud_init_rs.Userdata.Types.{UserData}

-- `CloudConfig::from_yaml(&content)?`
as_config : Serde → Text → Result UserData Error
unfolding from_yaml
as_config serde content = elim (from_yaml serde content) [
  | ok config ↦ ok (UserData.cloud_config config)
  | err e ↦ err (yaml e)
]

-- A text that is neither marked as a configuration nor as a script is a script if it is no YAML.
config_or_script : Serde → Text → UserData
unfolding from_yaml
config_or_script serde content = elim (from_yaml serde content) [
  | ok config ↦ UserData.cloud_config config
  | err e ↦ UserData.script content
]

unfoldable pub user_data_of : Serde → Text → Result UserData Error
unfolding as_config config_or_script is_cloud_config starts_with lit
user_data_of serde content =
    if is_cloud_config content
    then as_config serde content
    else if starts_with content (lit "#!")
    then ok (UserData.script content)
    else ok (config_or_script serde content)
