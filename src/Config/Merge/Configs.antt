-- ===== src/Config/Merge/Configs.antt =====
-- Merging configs in two goes is merging them in one.
use cloud_init_rs.Config.Merge.{merge_configs}
use cloud_init_rs.Prelude.{◌≡◌, refl, List, [], ◌∷◌, ◌++◌}
use cloud_init_rs.Config.Types.{CloudConfig, Serde}
use cloud_init_rs.Config.Merge.{merge_rest}

pub merge_rest-append :
    (serde : Serde) (c : CloudConfig) (xs ys : List CloudConfig)
    → merge_rest serde c (xs ++ ys) ≡ merge_rest serde (merge_rest serde c xs) ys
unfolding merge_rest
merge_rest-append serde c [] ys = refl
merge_rest-append serde c (x ∷ xs) ys = merge_rest-append serde (merge_configs serde c x) xs ys
