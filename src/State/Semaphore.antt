-- ===== src/State/Semaphore.antt =====
-- src/state/semaphore.rs: the marker files that say whether a module has run.
pub mod Once
pub mod Isolation
pub mod Refinement
mod Tests
use cloud_init_rs.Result.{◌>>=◌}
use cloud_init_rs.Result.{◌>>◌}
use cloud_init_rs.Prelude.{Bool, true, not, Option, none, some, List, [], ◌∷◌, ◌++◌, if◌then◌else◌}
use cloud_init_rs.Prelude.Texts.{Text, lit, strip_prefix, decimal}
use cloud_init_rs.Result.{Exec, pure, query, map_err, read_err, when}
use cloud_init_rs.Result.{io}
use cloud_init_rs.Os.{Os}
use cloud_init_rs.State.Paths.{path_join, path_parent}

pub data Frequency : Type 0 where
  per_boot per_instance per_once always : Frequency

-- `Frequency::subdir`
pub subdir : Frequency → Option Text
subdir per_boot = none
subdir per_instance = some (lit "per-instance")
subdir per_once = some (lit "per-once")
subdir always = none

-- `Display`
pub frequency_name : Frequency → Text
frequency_name per_boot = lit "per-boot"
frequency_name per_instance = lit "per-instance"
frequency_name per_once = lit "per-once"
frequency_name always = lit "always"

pub record SemaphoreManager : Type 0 where
  pub sem_dir : Text
  pub data_dir : Text

-- `SemaphoreManager::new`
abbrev pub new_manager : Text → Text → SemaphoreManager
new_manager sem_dir data_dir = record { sem_dir = sem_dir; data_dir = data_dir }

pub sem_path : SemaphoreManager → Text → Frequency → Option Text
sem_path m name per_boot = none
sem_path m name always = none
sem_path m name per_instance = some (path_join m.sem_dir (lit "config_" ++ name))
sem_path m name per_once = some (path_join m.data_dir (lit "sem/config_" ++ name))

module _ (os : Os) where
  open os use {World}

  pub should_run : SemaphoreManager → Text → Frequency → Exec World Bool
  should_run m name per_boot = pure true
  should_run m name always = pure true
  should_run m name freq = elim (sem_path m name freq) [
    | none ↦ pure true
    | some path ↦ do exists ← query (os.exists path); pure (not exists)
  ]

  -- `if let Some(parent) = path.parent() { fs::create_dir_all(parent).await?; }`
  unfoldable pub create_parent : Text → Exec World (Unit {0})
  create_parent path = elim (path_parent path) [
    | none ↦ pure tt
    | some parent ↦ map_err (os.create_dir_all parent) io
  ]

  unfoldable pub timestamp : Exec World Text
  timestamp = query (λ w. decimal (os.unix_seconds w))

  -- The body of `mark_done` at the marker's path.
  pub write_marker : Text → Exec World (Unit {0})
  unfolding create_parent timestamp
  write_marker path = do create_parent path; stamp ← timestamp; map_err (os.write path stamp) io

  pub mark_done : SemaphoreManager → Text → Frequency → Exec World (Unit {0})
  unfolding write_marker
  mark_done m name freq = elim (sem_path m name freq) [
    | none ↦ pure tt
    | some path ↦ write_marker path
  ]

  -- The body of `clear` at the marker's path.
  pub clear_marker : Text → Exec World (Unit {0})
  clear_marker path = do
    exists ← query (os.exists path)
    when exists (map_err (os.remove_file path) io)

  pub clear : SemaphoreManager → Text → Frequency → Exec World (Unit {0})
  unfolding clear_marker
  clear m name freq = elim (sem_path m name freq) [ none ↦ pure tt | some path ↦ clear_marker path ]

  pub clear_all : SemaphoreManager → Exec World (Unit {0})
  clear_all m = do
    exists ← query (os.exists m.sem_dir)
    when exists (map_err (os.remove_dir_all m.sem_dir) io)

  -- The loop of `list`: the names of the markers among the file names.
  marked : List Text → List Text
  marked [] = []
  marked (f ∷ fs) =
      let rest = marked fs in
      elim (strip_prefix (lit "config_") f) [ none ↦ rest | some name ↦ name ∷ rest ]

  pub list : SemaphoreManager → Exec World (List Text)
  unfolding marked
  list m = do
    exists ← query (os.exists m.sem_dir)
    if exists
        then (do names ← read_err (os.read_dir m.sem_dir) io; pure (marked names))
        else pure []
