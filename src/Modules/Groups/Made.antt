-- ===== src/Modules/Groups/Made.antt =====
-- What the machine went through when groups.rs succeeded.
use cloud_init_rs.Prelude.{
  ◌≡◌, refl, ap, ◌↔◌, Bool, true, false, not, ◌&&◌, ◌||◌, List, [], ◌∷◌, ◌++◌, arith,
}
use cloud_init_rs.Prelude.Texts.{Text, lit}
use cloud_init_rs.Result.{
  ok, Error, Exec, ◌>>=◌, raise, map_err, when, for_each, command, user_group,
}
use cloud_init_rs.Result.Steps.{bind-eq-ok, map_err-eq-ok, pure-eq-ok}
use cloud_init_rs.Os.{Os, Command, Output, command_of, success, exited_with}
use cloud_init_rs.Config.Types.{GroupConfig, name, with_members}
use cloud_init_rs.Modules.Groups.{
  create_group_simple, add_user_to_group, create_group_with_members, create_group, create_groups,
}

-- One after the other, each from where the one before ended.
abbrev pub Chain : {S A : Type 0} → (A → S → S → Type 0) → List A → S → S → Type 0
Chain R [] w w' = w ≡ w'
Chain {S} R (x ∷ xs) w w'' = (w' : S) × R x w w' × Chain R xs w' w''

for_each-Chain :
    {S A : Type 0} (f : A → Exec S (Unit {0})) (R : A → S → S → Type 0) (xs : List A)
    → ((x : A) (w w' : S) → (f x w ≡ (ok tt, w')) ↔ R x w w')
    → (w w' : S) → (for_each f xs w ≡ (ok tt, w')) ↔ Chain R xs w w'
unfolding for_each
for_each-Chain f R [] step w w' = (λ h. (pure-eq-ok h).1, λ e. ap (λ t. (ok tt, t)) e)
for_each-Chain f R (x ∷ xs) step w w'' = (
  λ h.
      let (u, t, first, others) = bind-eq-ok (f x) (λ _. for_each f xs) w h in
      (t, (step x w t).0 first, (for_each-Chain f R xs step t w'').0 others),
  λ (t, r, rs). rw ((step x w t).1 r) ((for_each-Chain f R xs step t w'').1 rs),
)

when-raise-eq-ok :
    {S : Type 0} (b : Bool) (x : Error) (s s' : S)
    → when b (raise x) s ≡ (ok tt, s')
    → (b ≡ false) × (s ≡ s')
when-raise-eq-ok true x s s' h = absurd (cc)
when-raise-eq-ok false x s s' h = (refl, (pure-eq-ok h).1)

module _ (os : Os) where
  -- The command could be started, and its output is accepted.
  abbrev pub RanWith : Command → (Output → Bool) → os.World → os.World → Type 0
  RanWith c accepted w w' = (o : Output) × (os.output c w ≡ (ok o, w')) × (accepted o ≡ true)

  -- A command that is followed by a check of its output.
  checked_iff :
      (c : Command) (bad accepted : Output → Bool) (refused : Output → Error)
      → ((o : Output) → bad o ≡ not (accepted o))
      → (w w' : os.World)
      → ((map_err (os.output c) command >>= λ o. when (bad o) (raise (refused o))) w ≡ (ok tt, w'))
        ↔ RanWith c accepted w w'
  checked_iff c bad accepted refused same w w' = (
    λ h.
        let (o, t, ran, judged) =
          bind-eq-ok (map_err (os.output c) command) (λ o. when (bad o) (raise (refused o))) w h in
        let (good, e) = when-raise-eq-ok (bad o) (refused o) t w' judged in
        (o, rw e at (map_err-eq-ok (os.output c) command w ran), ground (arith, same o)),
    λ (o, ran, good). rw (ran, same o, good) refl,
  )

  -- A group that is there already is no error.
  abbrev pub made_or_there : Output → Bool
  made_or_there o = success o || exited_with 9 o

  abbrev pub GroupAdded : Text → os.World → os.World → Type 0
  GroupAdded group = RanWith (command_of (lit "groupadd") (group ∷ [])) made_or_there

  abbrev pub MemberAdded : Text → Text → os.World → os.World → Type 0
  MemberAdded group username =
      RanWith (command_of (lit "usermod") (lit "--append" ∷ lit "--groups" ∷ group ∷ username ∷ []))
        success

  abbrev pub GroupMade : GroupConfig → os.World → os.World → Type 0
  GroupMade (name group) w w' = GroupAdded group w w'
  GroupMade (with_members group members) w w'' =
      (w' : os.World) × GroupAdded group w w' × Chain (MemberAdded group) members w' w''

  create_group_simple_iff :
      (group : Text) (w w' : os.World)
      → (create_group_simple os group w ≡ (ok tt, w')) ↔ GroupAdded group w w'
  unfolding create_group_simple
  create_group_simple_iff group =
      checked_iff (command_of (lit "groupadd") (group ∷ []))
        (λ o. not (success o) && not (exited_with 9 o)) made_or_there
        (λ o. user_group (lit "Failed to create group " ++ group ++ lit ": " ++ o.stderr))
        (λ o. ground arith)

  add_user_to_group_iff :
      (group username : Text) (w w' : os.World)
      → (add_user_to_group os username group w ≡ (ok tt, w')) ↔ MemberAdded group username w w'
  unfolding add_user_to_group
  add_user_to_group_iff group username =
      checked_iff
        (command_of (lit "usermod") (lit "--append" ∷ lit "--groups" ∷ group ∷ username ∷ []))
        (λ o. not (success o)) success
        (λ o. user_group (
          lit "Failed to add user "
          ++ username
          ++ lit " to group "
          ++ group
          ++ lit ": "
          ++ o.stderr))
        (λ o. refl)

  create_group_iff :
      (g : GroupConfig) (w w' : os.World) → (create_group os g w ≡ (ok tt, w')) ↔ GroupMade g w w'
  unfolding create_group create_group_with_members
  create_group_iff (name group) w w' = create_group_simple_iff group w w'
  create_group_iff (with_members group members) w w'' =
      let add = λ (member : Text). add_user_to_group os member group in
      let all = for_each-Chain add (MemberAdded group) members (add_user_to_group_iff group) in
      (
        λ h.
            let (u, t, first, others) =
              bind-eq-ok (create_group_simple os group) (λ _. for_each add members) w h in
            (t, (create_group_simple_iff group w t).0 first, (all t w'').0 others),
        λ (t, r, rs). rw ((create_group_simple_iff group w t).1 r) ((all t w'').1 rs),
      )

  -- Creating groups succeeds and leaves a machine exactly if, for each group in order, groupadd
  -- could be started and ended with exit code 0 or 9, and then for each of the group's members
  -- in order usermod could be started and ended with exit code 0, each on the machine as the one
  -- before left it, and the machine is as the last one left it.
  pub create_groups-Made_iff :
      (groups : List GroupConfig) (w w' : os.World)
      → (create_groups os groups w ≡ (ok tt, w')) ↔ Chain GroupMade groups w w'
  unfolding create_groups
  create_groups-Made_iff groups w w' =
      for_each-Chain (create_group os) GroupMade groups create_group_iff w w'
