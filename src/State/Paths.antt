-- ===== src/State/Paths.antt =====
-- src/state/paths.rs, with `Path::join` and `Path::parent` of the standard library.
pub mod Laws
use cloud_init_rs.Prelude.{
  Bool, false, not, ◌||◌, Option, none, some, List, [], ◌∷◌, ◌++◌, eqb, if◌then◌else◌, is_empty,
  keep,
}
use cloud_init_rs.Prelude.Texts.{Text, lit, ◌==◌, split_char, join}

unfoldable pub ends_with_slash : Text → Bool
ends_with_slash [] = false
ends_with_slash (a ∷ []) = eqb a b'/'
ends_with_slash (a ∷ b ∷ t) = ends_with_slash (b ∷ t)

unfoldable pub is_absolute : Text → Bool
is_absolute [] = false
is_absolute (a ∷ t) = eqb a b'/'

-- `Path::join`: an absolute path replaces the base, and a separator is added where none stands.
unfoldable pub path_join : Text → Text → Text
unfolding is_absolute ends_with_slash
path_join [] p = p
path_join (a ∷ b) p =
    if is_absolute p
    then p
    else if ends_with_slash (a ∷ b)
    then (a ∷ b) ++ p
    else (a ∷ b) ++ (b'/' ∷ p)

-- The names on a path: what stands between separators, without what is empty or `.`.
path_names : Text → List Text
path_names p = keep (λ n. not (is_empty n || n == lit ".")) (split_char b'/' p)

drop_last : List Text → List Text
drop_last [] = []
drop_last (n ∷ []) = []
drop_last (n ∷ m ∷ ns) = n ∷ drop_last (m ∷ ns)

-- `Path::parent`: none for a path without names. Repeated separators and inner `.`, which name the
-- same directory, are left out of the result.
unfoldable pub path_parent : Text → Option Text
unfolding path_names drop_last is_absolute split_char join lit ◌==◌
path_parent p =
    let names = path_names p in
    let above = join (lit "/") (drop_last names) in
    if is_empty names then none else if is_absolute p then some (b'/' ∷ above) else some above

pub record CloudPaths : Type 0 where
  pub base : Text
  pub config : Text

abbrev pub cloud_dir : Text
unfolding lit
cloud_dir = lit "/var/lib/cloud"

abbrev pub config_dir : Text
unfolding lit
config_dir = lit "/etc/cloud"

-- `CloudPaths::new`, `with_base` and `with_dirs`
abbrev pub default_paths : CloudPaths
default_paths = record { base = cloud_dir; config = config_dir }

abbrev pub with_base : Text → CloudPaths
with_base base = record { base = base; config = config_dir }

abbrev pub with_dirs : Text → Text → CloudPaths
with_dirs base config = record { base = base; config = config }

module _ (paths : CloudPaths) where
  unfoldable pub data_dir : Text
  data_dir = path_join paths.base (lit "data")

  unfoldable pub instances_dir : Text
  instances_dir = path_join paths.base (lit "instances")

  unfoldable pub instance_link : Text
  instance_link = path_join paths.base (lit "instance")

  unfoldable pub scripts_dir : Text
  scripts_dir = path_join paths.base (lit "scripts")

  unfoldable pub seed_dir : Text
  seed_dir = path_join paths.base (lit "seed")

  unfoldable pub instance_dir : Text → Text
  unfolding instances_dir
  instance_dir id = path_join instances_dir id

  unfoldable pub sem_dir : Text → Text
  unfolding instance_dir
  sem_dir id = path_join (instance_dir id) (lit "sem")

  unfoldable pub boot_finished : Text → Text
  unfolding instance_dir
  boot_finished id = path_join (instance_dir id) (lit "boot-finished")

  unfoldable pub cloud_config : Text → Text
  unfolding instance_dir
  cloud_config id = path_join (instance_dir id) (lit "cloud-config.txt")

  unfoldable pub user_data : Text → Text
  unfolding instance_dir
  user_data id = path_join (instance_dir id) (lit "user-data.txt")

  unfoldable pub vendor_data : Text → Text
  unfolding instance_dir
  vendor_data id = path_join (instance_dir id) (lit "vendor-data.txt")

  unfoldable pub datasource_file : Text → Text
  unfolding instance_dir
  datasource_file id = path_join (instance_dir id) (lit "datasource")

  unfoldable pub scripts_per_boot : Text
  unfolding scripts_dir
  scripts_per_boot = path_join scripts_dir (lit "per-boot")

  unfoldable pub scripts_per_instance : Text
  unfolding scripts_dir
  scripts_per_instance = path_join scripts_dir (lit "per-instance")

  unfoldable pub scripts_per_once : Text
  unfolding scripts_dir
  scripts_per_once = path_join scripts_dir (lit "per-once")

  unfoldable pub main_config : Text
  main_config = path_join paths.config (lit "cloud.cfg")

  unfoldable pub config_d : Text
  config_d = path_join paths.config (lit "cloud.cfg.d")

  unfoldable pub cached_instance_id : Text
  unfolding data_dir
  cached_instance_id = path_join data_dir (lit "instance-id")

  unfoldable pub previous_instance_id : Text
  unfolding data_dir
  previous_instance_id = path_join data_dir (lit "previous-instance-id")

  unfoldable pub result_file : Text
  unfolding data_dir
  result_file = path_join data_dir (lit "result.json")

  unfoldable pub status_file : Text
  unfolding data_dir
  status_file = path_join data_dir (lit "status.json")
