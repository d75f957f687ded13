-- ===== src/State/Semaphore/Refinement/Tests.antt =====
-- Two modules are marked and one is cleared again, on a file system in memory.
use cloud_init_rs.Prelude.{◌≡◌, refl, true, some, List, [], ◌∷◌}
use cloud_init_rs.Prelude.Texts.{lit, ◌==◌}
use cloud_init_rs.Result.{ok, for_each}
use cloud_init_rs.Os.Memory.{Files, memory, memory_WriteLaws, memory_RemoveLaws, memory_MkdirLaws}
use cloud_init_rs.State.Paths.{
  default_paths, path_join, path_parent, sem_dir, data_dir, instance_dir, instances_dir,
  is_absolute, ends_with_slash,
}
use cloud_init_rs.State.Semaphore.{
  per_instance, per_once, SemaphoreManager, should_run, mark_done, clear, sem_path, write_marker,
  clear_marker, create_parent,
}
use cloud_init_rs.State.Semaphore.Isolation.{manager_for}
use cloud_init_rs.State.Semaphore.Refinement.{
  instance_scope, once_scope, Done, Operation, mark, erase, perform, runs, abstract_run, Represents,
  marker, directory, IsName,
}
use cloud_init_rs.State.Semaphore.Refinement.MarkerPaths.{should_run-abstract_run}

abbrev manager : SemaphoreManager
manager = manager_for default_paths (lit "i-1")

-- Every path is there.
abbrev all_there : Files
all_there p = some []

abbrev all_done : Done
all_done s n = true

abbrev operations : List Operation
operations =
    mark (lit "ssh") per_once ∷ mark (lit "ntp") per_instance ∷ erase (lit "ntp") per_instance ∷ []

abbrev after : Files
after = (for_each (perform memory manager) operations all_there).1

represented : Represents memory manager all_done all_there
represented = record { markers = λ s n. refl; directories = λ s. refl }

ssh-IsName : IsName manager (lit "ssh")
unfolding marker directory path_parent path_join lit sem_dir data_dir instance_dir instances_dir
    ends_with_slash is_absolute ◌==◌
ssh-IsName instance_scope = refl
ssh-IsName once_scope = refl

ntp-IsName : IsName manager (lit "ntp")
unfolding marker directory path_parent path_join lit sem_dir data_dir instance_dir instances_dir
    ends_with_slash is_absolute ◌==◌
ntp-IsName instance_scope = refl
ntp-IsName once_scope = refl

should_run-abstract_run_example :
    should_run memory manager (lit "ntp") per_instance after
    ≡ (ok (runs per_instance (lit "ntp") (abstract_run operations all_done)), after)
unfolding for_each perform mark_done clear write_marker clear_marker create_parent sem_path
    path_join path_parent lit sem_dir data_dir instance_dir instances_dir ends_with_slash
    is_absolute ◌==◌
should_run-abstract_run_example =
    should_run-abstract_run memory memory_WriteLaws memory_RemoveLaws memory_MkdirLaws default_paths
      (lit "i-1") (cc, refl) ((cc, refl), refl) operations all_done all_there after
      (ssh-IsName, (ntp-IsName, (ntp-IsName, tt))) represented refl (lit "ntp") per_instance
