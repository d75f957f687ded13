-- ===== src/State/Semaphore/Tests.antt =====
-- The markers on a file system in memory.
use cloud_init_rs.Prelude.{◌≡◌, refl, false, some, []}
use cloud_init_rs.Prelude.Texts.{==-ne, Text, lit, ◌==◌}
use cloud_init_rs.Result.{ok}
use cloud_init_rs.Os.Memory.{Files, no_files, memory, memory_WriteLaws, memory_MkdirLaws}
use cloud_init_rs.State.Paths.{
  path_join, path_parent, sem_dir, data_dir, instance_dir, instances_dir, default_paths,
  is_absolute, ends_with_slash,
}
use cloud_init_rs.State.Semaphore.{
  per_instance, SemaphoreManager, should_run, mark_done, sem_path, write_marker, create_parent,
}
use cloud_init_rs.State.Semaphore.Once.{should_run-mark_done}
use cloud_init_rs.State.Semaphore.Isolation.{HasParent, manager_for, should_run-mark_done-elsewhere}

abbrev first : SemaphoreManager
first = manager_for default_paths (lit "i-1")

abbrev second : SemaphoreManager
second = manager_for default_paths (lit "i-2")

-- A file system whose directories are all there.
abbrev all_there : Files
all_there p = some []

abbrev marked : Files → Files
marked w = (mark_done memory first (lit "runcmd") per_instance w).1

should_run-mark_done_example :
    should_run memory first (lit "runcmd") per_instance (marked no_files)
    ≡ (ok false, marked no_files)
unfolding mark_done write_marker create_parent sem_path path_join path_parent lit sem_dir data_dir
    instance_dir instances_dir
should_run-mark_done_example =
    should_run-mark_done memory memory_WriteLaws first (lit "runcmd") per_instance no_files
      (marked no_files) refl

parents_there :
    (p : Text) → sem_path first (lit "runcmd") per_instance ≡ some p → HasParent memory p all_there
parents_there p e d h = refl

should_run-mark_done-elsewhere_example :
    (should_run memory second (lit "runcmd") per_instance (marked all_there)).0
    ≡ (should_run memory second (lit "runcmd") per_instance all_there).0
unfolding mark_done write_marker create_parent sem_path path_join path_parent lit sem_dir data_dir
    instance_dir instances_dir ends_with_slash is_absolute ◌==◌
should_run-mark_done-elsewhere_example =
    should_run-mark_done-elsewhere memory memory_MkdirLaws memory_WriteLaws default_paths
      (lit "i-1") (lit "i-2") (lit "runcmd") per_instance all_there (marked all_there) (cc, refl)
      ((cc, refl), refl) ((cc, refl), refl) (==-ne (lit "i-1") (lit "i-2") refl) parents_there refl
