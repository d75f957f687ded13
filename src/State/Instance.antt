-- ===== src/State/Instance.antt =====
-- src/state/mod.rs: which instance this is, and the files kept for it.
pub mod Cache
mod Tests
use cloud_init_rs.Result.{◌>>=◌}
use cloud_init_rs.Result.{◌>>◌}
use cloud_init_rs.Prelude.{
  Bool, true, false, ◌||◌, Option, none, some, [], ◌∷◌, if◌then◌else◌, is_empty,
}
use cloud_init_rs.Prelude.Texts.{Text, lit, ◌==◌, trim, decimal}
use cloud_init_rs.Result.{
  Result, ok, err, Exec, pure, raise, query, map_err, read_err, ignore, when, for_each,
}
use cloud_init_rs.Result.{io, json}
use cloud_init_rs.Os.{Os}
use cloud_init_rs.State.Paths
use cloud_init_rs.State.Paths.{CloudPaths, default_paths}
use cloud_init_rs.State.Semaphore.{SemaphoreManager, new_manager}

pub record InstanceState : Type 0 where
  pub paths : CloudPaths
  pub instance_id : Option Text
  pub semaphores : Option SemaphoreManager

-- `InstanceState::with_paths` and `new`
abbrev pub with_paths : CloudPaths → InstanceState
with_paths paths = record { paths = paths; instance_id = none; semaphores = none }

abbrev pub new_state : InstanceState
new_state = with_paths default_paths

pub record CloudInitStatus : Type 0 where
  pub status : Text
  pub boot_finished : Bool
  pub stage : Option Text
  pub error : Option Text
  pub datasource : Option Text

abbrev pub default_status : CloudInitStatus
default_status = record {
  status = lit "not-started";
  boot_finished = false;
  stage = none;
  error = none;
  datasource = none;
}

-- `serde_json` on the status.
pub record StatusJson : Type 0 where
  pub to_string_pretty : CloudInitStatus → Result Text Text
  pub from_str : Text → Result CloudInitStatus Text

-- The two fields that an instance id sets.
abbrev pub identified : InstanceState → Text → InstanceState
identified st id = record st {
  instance_id = some id;
  semaphores = some (new_manager (Paths.sem_dir st.paths id) (Paths.data_dir st.paths));
}

module _ (os : Os) where
  open os use {World}

  abbrev pub create_dir_all : Text → Exec World (Unit {0})
  create_dir_all p = map_err (os.create_dir_all p) io

  abbrev pub write : Text → Text → Exec World (Unit {0})
  write p c = map_err (os.write p c) io

  abbrev pub read_to_string : Text → Exec World Text
  read_to_string p = read_err (os.read_to_string p) io

  pub initialize : InstanceState → Exec World (Unit {0})
  initialize st = do
    create_dir_all (Paths.data_dir st.paths)
    create_dir_all (Paths.instances_dir st.paths)
    create_dir_all (Paths.scripts_per_boot st.paths)
    create_dir_all (Paths.scripts_per_instance st.paths)
    create_dir_all (Paths.scripts_per_once st.paths)
    create_dir_all (Paths.seed_dir st.paths)

  -- The comparison of `check_instance_change` with a cached id.
  pub compare_id : CloudPaths → Text → Text → Exec World Bool
  compare_id paths new_id cached =
      if trim cached == new_id
      then pure false
      else do write (Paths.previous_instance_id paths) (trim cached); pure true

  pub check_instance_change : InstanceState → Text → Exec World Bool
  unfolding compare_id
  check_instance_change st new_id = do
    exists ← query (os.exists (Paths.cached_instance_id st.paths))
    if exists
        then (do
          cached ← read_to_string (Paths.cached_instance_id st.paths)
          compare_id st.paths new_id cached)
        else pure true

  pub update_instance_link : InstanceState → Text → Exec World (Unit {0})
  update_instance_link st id = do
    let link = Paths.instance_link st.paths
    exists ← query (os.exists link)
    symlinked ← query (os.is_symlink link)
    when (exists || symlinked) (ignore (map_err (os.remove_file link) io))
    map_err (os.symlink (Paths.instance_dir st.paths id) link) io

  pub set_instance_id : InstanceState → Text → Exec World (InstanceState × Bool)
  set_instance_id st id = do
    is_new ← check_instance_change st id
    create_dir_all (Paths.instance_dir st.paths id)
    create_dir_all (Paths.sem_dir st.paths id)
    update_instance_link st id
    write (Paths.cached_instance_id st.paths) id
    pure (identified st id, is_new)

  -- The files of the current instance; nothing is written where no instance is known.
  for_instance : InstanceState → (CloudPaths → Text → Text) → Text → Exec World (Unit {0})
  for_instance st path contents = elim st.instance_id [
    | none ↦ pure tt
    | some id ↦ write (path st.paths id) contents
  ]

  pub save_userdata : InstanceState → Text → Exec World (Unit {0})
  unfolding for_instance
  save_userdata st = for_instance st Paths.user_data

  pub save_vendordata : InstanceState → Text → Exec World (Unit {0})
  unfolding for_instance
  save_vendordata st = for_instance st Paths.vendor_data

  pub save_cloud_config : InstanceState → Text → Exec World (Unit {0})
  unfolding for_instance
  save_cloud_config st = for_instance st Paths.cloud_config

  pub save_datasource : InstanceState → Text → Exec World (Unit {0})
  unfolding for_instance
  save_datasource st = for_instance st Paths.datasource_file

  pub mark_boot_finished : InstanceState → Exec World (Unit {0})
  unfolding for_instance
  mark_boot_finished st = do
    stamp ← query (λ w. decimal (os.unix_seconds w))
    for_instance st Paths.boot_finished stamp

  pub is_boot_finished : InstanceState → World → Bool
  is_boot_finished st w = elim st.instance_id [
    | none ↦ false
    | some id ↦ os.exists (Paths.boot_finished st.paths id) w
  ]

  abbrev lift_json {ℓ} : {A : Type ℓ} → Result A Text → Exec World A
  lift_json (ok a) = pure a
  lift_json (err e) = raise (json e)

  pub update_status : StatusJson → InstanceState → CloudInitStatus → Exec World (Unit {0})
  update_status j st status = do
    text ← lift_json (j.to_string_pretty status)
    write (Paths.status_file st.paths) text

  pub read_status : StatusJson → InstanceState → Exec World CloudInitStatus
  read_status j st = do
    exists ← query (os.exists (Paths.status_file st.paths))
    if exists
        then (do
          content ← read_to_string (Paths.status_file st.paths)
          lift_json (j.from_str content))
        else pure default_status

  -- `if dir.exists() { fs::remove_dir_all(dir).await?; }`
  remove_tree : Text → Exec World (Unit {0})
  remove_tree dir = do
    exists ← query (os.exists dir)
    when exists (map_err (os.remove_dir_all dir) io)

  remove_log : Text → Exec World (Unit {0})
  remove_log path = do
    exists ← query (os.exists path)
    when exists (ignore (map_err (os.remove_file path) io))

  pub clean : InstanceState → Bool → Exec World (Unit {0})
  unfolding remove_tree remove_log
  clean st include_logs = do
    remove_tree (Paths.instances_dir st.paths)
    let link = Paths.instance_link st.paths
    exists ← query (os.exists link)
    symlinked ← query (os.is_symlink link)
    when (exists || symlinked) (ignore (map_err (os.remove_file link) io))
    remove_tree (Paths.data_dir st.paths)
    when include_logs (
        for_each remove_log
          (lit "/var/log/cloud-init.log" ∷ lit "/var/log/cloud-init-output.log" ∷ []))

  unfoldable pub load_cached_instance_id : InstanceState → Exec World (InstanceState × Option Text)
  load_cached_instance_id st = do
    exists ← query (os.exists (Paths.cached_instance_id st.paths))
    if exists
        then (do
          cached ← read_to_string (Paths.cached_instance_id st.paths)
          let id = trim cached
          if is_empty id then pure (st, none) else pure (identified st id, some id))
        else pure (st, none)
