-- ===== src/State/Instance/Tests.antt =====
-- The cached instance id on a file system in memory.
use cloud_init_rs.Prelude.{◌≡◌, refl, ◌↔◌, true, false, some}
use cloud_init_rs.Prelude.Texts.{
  ==-ne, Text, lit, ◌==◌, is_whitespace, trim_start_matches, trim_start, trim,
}
use cloud_init_rs.Result.{ok}
use cloud_init_rs.Os.Memory.{Files, no_files, memory, memory_WriteLaws}
use cloud_init_rs.State.Paths
use cloud_init_rs.State.Paths.{
  default_paths, path_join, sem_dir, data_dir, instance_dir, instances_dir, cached_instance_id,
  previous_instance_id, instance_link,
}
use cloud_init_rs.State.Instance.{
  InstanceState, with_paths, identified, check_instance_change, compare_id, update_instance_link,
  set_instance_id, load_cached_instance_id,
}
use cloud_init_rs.State.Instance.Cache.{check-eq-false_iff, load_after_set, check_saves_previous}

abbrev fresh : InstanceState
fresh = with_paths default_paths

abbrev id : Text
id = lit "i-1"

-- The machine on which `i-1` was set.
abbrev known : Files
known = (set_instance_id memory fresh id no_files).1

-- The machine after the next boot as `i-2`.
abbrev after : Files
after = (check_instance_change memory fresh (lit "i-2") known).1

check-eq-false_iff_example :
    ((check_instance_change memory fresh id known).0 ≡ ok false) ↔ (trim id ≡ id)
unfolding set_instance_id check_instance_change compare_id update_instance_link path_join lit
    sem_dir data_dir instance_dir instances_dir cached_instance_id instance_link
check-eq-false_iff_example =
    check-eq-false_iff memory memory_WriteLaws fresh (identified fresh id) id true no_files known
      refl id

load_after_set_example :
    load_cached_instance_id memory fresh known ≡ (ok (identified fresh id, some id), known)
unfolding set_instance_id check_instance_change compare_id update_instance_link path_join lit
    sem_dir data_dir instance_dir instances_dir cached_instance_id instance_link trim
load_after_set_example =
    load_after_set memory memory_WriteLaws fresh (identified fresh id) id true no_files known refl
      refl cc

check_saves_previous_example :
    (true ≡ true)
    × (memory.read_to_string (Paths.previous_instance_id fresh.paths) after ≡ ok (trim id))
unfolding set_instance_id check_instance_change compare_id update_instance_link path_join lit
    sem_dir data_dir instance_dir instances_dir cached_instance_id instance_link trim trim_start
    trim_start_matches is_whitespace ◌==◌
check_saves_previous_example =
    check_saves_previous memory memory_WriteLaws fresh (lit "i-2") id true known after refl refl
      (==-ne (trim id) (lit "i-2") refl) refl
