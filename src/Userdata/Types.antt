-- ===== src/Userdata/Types.antt =====
-- `UserData` and `UserDataPart` of src/lib.rs.
use cloud_init_rs.Prelude.{Option, List}
use cloud_init_rs.Prelude.Texts.{Text}
use cloud_init_rs.Config.Types.{CloudConfig}

pub record UserDataPart : Type 0 where
  pub content_type : Text
  pub content : Text
  pub filename : Option Text

pub data UserData : Type 0 where
  cloud_config : CloudConfig → UserData
  script : Text → UserData
  multi_part : List UserDataPart → UserData
  no_data : UserData
