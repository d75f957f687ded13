-- ===== src/Stages/FinalStage.antt =====
-- src/stages/final_stage.rs. Of its steps `execute_runcmd`, `run_user_scripts` and `phone_home`
-- only log.
use cloud_init_rs.Result.{◌>>=◌}
use cloud_init_rs.Result.{attempt}
use cloud_init_rs.Prelude.Texts.{Text, lit}
use cloud_init_rs.Result.{ok, err, Exec, pure}
use cloud_init_rs.Os.{Os}

-- `result.to_string()`
result_json : Text
unfolding lit
result_json = lit "{\"v1\":{\"datasource\":null,\"errors\":[]}}"

module _ (os : Os) where
  -- What fails is logged; without the directory nothing is written.
  write_final_message : Exec os.World (Unit {0})
  unfolding result_json lit
  write_final_message = do
    made ← attempt (os.create_dir_all (lit "/run/cloud-init"))
    elim made [
      | ok u ↦ (do
        wrote ← attempt (os.write (lit "/run/cloud-init/result.json") result_json)
        pure tt)
      | err e ↦ pure tt
    ]

  unfoldable pub run : Exec os.World (Unit {0})
  unfolding write_final_message
  run = write_final_message
