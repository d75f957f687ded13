-- ===== src/Modules/Groups.antt =====
-- src/modules/groups.rs
pub mod Made
mod Tests
use cloud_init_rs.Result.{◌>>=◌}
use cloud_init_rs.Result.{◌>>◌}
use cloud_init_rs.Prelude.{not, ◌&&◌, List, [], ◌∷◌, ◌++◌}
use cloud_init_rs.Prelude.Texts.{Text, lit}
use cloud_init_rs.Result.{Exec, raise, map_err, when, for_each}
use cloud_init_rs.Result.{command, user_group}
use cloud_init_rs.Os.{Os, command_of, success, exited_with}
use cloud_init_rs.Config.Types.{GroupConfig, name, with_members}

module _ (os : Os) where
  create_group_simple : Text → Exec os.World (Unit {0})
  unfolding lit
  create_group_simple group = do
    o ← map_err (os.output (command_of (lit "groupadd") (group ∷ []))) command
    when (not (success o) && not (exited_with 9 o))
        (raise (user_group (lit "Failed to create group " ++ group ++ lit ": " ++ o.stderr)))

  add_user_to_group : Text → Text → Exec os.World (Unit {0})
  unfolding lit
  add_user_to_group username group = do
    o ←
        map_err
          (os.output
            (command_of (lit "usermod") (lit "--append" ∷ lit "--groups" ∷ group ∷ username ∷ [])))
          command
    when (not (success o)) (
        raise (
          user_group (
            lit "Failed to add user "
            ++ username
            ++ lit " to group "
            ++ group
            ++ lit ": "
            ++ o.stderr)))

  create_group_with_members : Text → List Text → Exec os.World (Unit {0})
  unfolding create_group_simple add_user_to_group
  create_group_with_members group members = do
    create_group_simple group
    for_each (λ member. add_user_to_group member group) members

  create_group : GroupConfig → Exec os.World (Unit {0})
  unfolding create_group_simple create_group_with_members
  create_group (name group) = create_group_simple group
  create_group (with_members group members) = create_group_with_members group members

  unfoldable pub create_groups : List GroupConfig → Exec os.World (Unit {0})
  unfolding create_group
  create_groups groups = for_each create_group groups
