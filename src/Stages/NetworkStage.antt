-- ===== src/Stages/NetworkStage.antt =====
-- src/stages/network.rs
use cloud_init_rs.Result.{◌>>◌}
use cloud_init_rs.Result.{◌>>=◌}
use cloud_init_rs.Prelude.{Option, none, List, []}
use cloud_init_rs.Prelude.Texts.{Text}
use cloud_init_rs.Result.{Exec, pure}

pub record Metadata : Type 0 where
  pub instance_id : Option Text
  pub hostname : Option Text
  pub ssh_public_keys : List Text

-- No datasource is asked yet: the metadata is empty, and what is done with it only logs.
module _ {S : Type 0} where
  fetch_metadata : Exec S Metadata
  fetch_metadata = pure (record { instance_id = none; hostname = none; ssh_public_keys = [] })

  configure_hostname : Metadata → Exec S (Unit {0})
  configure_hostname metadata = pure tt

  configure_ssh_keys : Metadata → Exec S (Unit {0})
  configure_ssh_keys metadata = pure tt

  unfoldable pub run : Exec S (Unit {0})
  unfolding fetch_metadata configure_hostname configure_ssh_keys
  run = do metadata ← fetch_metadata; configure_hostname metadata; configure_ssh_keys metadata
