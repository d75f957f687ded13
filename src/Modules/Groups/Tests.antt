-- ===== src/Modules/Groups/Tests.antt =====
-- A machine that has the groups already.
use cloud_init_rs.Prelude.{◌≡◌, refl, ◌↔◌, some, List, [], ◌∷◌, if◌then◌else◌}
use cloud_init_rs.Prelude.Texts.{lit, ◌==◌}
use cloud_init_rs.Result.{ok, for_each}
use cloud_init_rs.Os.{Os}
use cloud_init_rs.Os.Memory.{no_files, memory}
use cloud_init_rs.Config.Types.{GroupConfig, name, with_members}
use cloud_init_rs.Modules.Groups.{create_groups}
use cloud_init_rs.Modules.Groups.Made.{Chain, GroupMade, create_groups-Made_iff}

abbrev settled : Os
settled = record memory {
  output = λ c w. (
    ok (record {
      code = some (if c.program == lit "groupadd" then 9 else 0);
      stdout = [];
      stderr = [];
    }),
    w,
  );
}

abbrev groups : List GroupConfig
groups = name (lit "adm") ∷ with_members (lit "ops") (lit "ann" ∷ lit "bob" ∷ []) ∷ []

create_groups-Made_iff_example :
    (create_groups settled groups no_files ≡ (ok tt, no_files))
    ↔ Chain (GroupMade settled) groups no_files no_files
create_groups-Made_iff_example = create_groups-Made_iff settled groups no_files no_files

groups_there : create_groups settled groups no_files ≡ (ok tt, no_files)
unfolding create_groups for_each lit ◌==◌
groups_there = refl
