-- ===== src/Service/Subscribers/Diff.antt =====
-- diffUserChanges of internal/service/project_subscriber.go: the change of every user's roles between
-- two snapshots of the settings. Go ranges over a map in no fixed order; an association list is ranged
-- over in its own.
pub mod Keys
pub mod Shape
use lfx_v2_project_service.Prelude.{
  String, Bool, true, false, not, ◌&&◌, ◌||◌, Option, none, some, List, [], ◌∷◌, ◌++◌, ◌==◌,
  if◌then◌else◌,
}
use lfx_v2_project_service.Prelude.Text.{sprintf}
use lfx_v2_project_service.Prelude.Assoc.{lookup, insert}
use lfx_v2_project_service.Domain.Model.{UserInfo, ProjectSettings}
use lfx_v2_project_service.Service.Runtime.{Runtime}
use lfx_v2_project_service.Service.Users.{normalize_email, empty_user}
use lfx_v2_project_service.Service.Subscribers.Roles.{
  role_writer, role_auditor, role_meeting_coordinator, contains, roles_equal,
}

pub data ChangeKind : Type 0 where
  added changed removed : ChangeKind

pub record UserChange : Type 0 where
  pub user : UserInfo
  pub old_roles : List String
  pub new_roles : List String
  pub kind : ChangeKind

-- The local type `entry`: a user with the roles of the user, in the order in which they were met.
pub record RoleEntry : Type 0 where
  pub user : UserInfo
  pub roles : List String

-- The two maps that `buildMap` returns.
pub record RoleMap : Type 0 where
  pub primary : List (String × RoleEntry)
  pub all_keys : List (String × String)

abbrev pub empty_map : RoleMap
empty_map = record { primary = []; all_keys = [] }

abbrev pub entry_or_zero : Option RoleEntry → RoleEntry
entry_or_zero none = record { user = empty_user; roles = [] }
entry_or_zero (some e) = e

abbrev or_else : Option String → String → String
or_else none k = k
or_else (some j) k = j

-- The first key that a map of keys knows, as the primary key that it has there.
unfoldable pub find_canon : List String → List (String × String) → Option String
unfolding lookup
find_canon [] all_keys = none
find_canon (k ∷ ks) all_keys =
    let rest = find_canon ks all_keys in
    elim (lookup k all_keys) [ some pk ↦ some pk | none ↦ rest ]

unfoldable pub set_keys : List String → String → List (String × String) → List (String × String)
unfolding insert
set_keys [] canon all_keys = all_keys
set_keys (k ∷ ks) canon all_keys = set_keys ks canon (insert k canon all_keys)

module _ (rt : Runtime) where
  unfoldable pub member_keys : UserInfo → List String
  unfolding normalize_email
  member_keys u =
      (if u.username == "" then [] else sprintf "username:" u.username ∷ [])
      ++ (if u.email == "" then [] else sprintf "email:" (normalize_email rt u.email) ∷ [])

  -- The entry of a user after one more mention.
  unfoldable pub add_role : UserInfo → String → RoleEntry → RoleEntry
  unfolding contains
  add_role u role e = record {
    user = if not (u.username == "") || e.user.username == "" then u else e.user;
    roles = if contains role e.roles then e.roles else e.roles ++ role ∷ [];
  }

  -- The closure `add`, for a user with the keys `ks`.
  unfoldable pub add_with_keys : List String → UserInfo → String → RoleMap → RoleMap
  unfolding find_canon set_keys add_role lookup insert
  add_with_keys [] u role m = m
  add_with_keys (k ∷ ks) u role m =
      let canon = or_else (find_canon (k ∷ ks) m.all_keys) k in
      record {
        primary = insert canon (add_role u role (entry_or_zero (lookup canon m.primary))) m.primary;
        all_keys = set_keys (k ∷ ks) canon m.all_keys;
      }

  unfoldable pub add_member : UserInfo → String → RoleMap → RoleMap
  unfolding add_with_keys member_keys
  add_member u role m = add_with_keys (member_keys u) u role m

  unfoldable pub add_members : List UserInfo → String → RoleMap → RoleMap
  unfolding add_member
  add_members [] role m = m
  add_members (u ∷ us) role m = add_members us role (add_member u role m)

  unfoldable pub build_map : ProjectSettings → RoleMap
  unfolding add_members
  build_map s =
      add_members s.meeting_coordinators role_meeting_coordinator
        (add_members s.auditors role_auditor (add_members s.writers role_writer empty_map))

  -- What follows from the old key that a new entry matches, if it matches one.
  unfoldable pub change_from : RoleMap → RoleEntry → Option String → List UserChange × List String
  unfolding roles_equal lookup
  change_from old_map e none =
      (record { user = e.user; old_roles = []; new_roles = e.roles; kind = added } ∷ [], [])
  change_from old_map e (some canon) =
      let old_entry = entry_or_zero (lookup canon old_map.primary) in
      (
        if roles_equal old_entry.roles e.roles
            then []
            else record {
              user = e.user;
              old_roles = old_entry.roles;
              new_roles = e.roles;
              kind = changed;
            }
              ∷ [],
        canon ∷ [],
      )

  -- One round of the loop over the new entries: the change, if there is one, and the old key that the
  -- entry has matched.
  unfoldable pub new_entry_change : RoleMap → RoleEntry → List UserChange × List String
  unfolding find_canon member_keys change_from
  new_entry_change old_map e =
      change_from old_map e (find_canon (member_keys e.user) old_map.all_keys)

  unfoldable pub new_changes : RoleMap → List (String × RoleEntry) → List UserChange × List String
  unfolding new_entry_change
  new_changes old_map [] = ([], [])
  new_changes old_map ((_, e) ∷ es) =
      let one = new_entry_change old_map e in
      let rest = new_changes old_map es in (one.0 ++ rest.0, one.1 ++ rest.1)

  -- One round of the loop over the old entries.
  unfoldable pub old_entry_change :
      RoleMap → (matched : List String) → String → RoleEntry → List UserChange
  unfolding find_canon member_keys contains
  old_entry_change new_map matched key e =
      if contains key matched then [] else elim (find_canon (member_keys e.user) new_map.all_keys) [
        | some _ ↦ []
        | none ↦ record { user = e.user; old_roles = e.roles; new_roles = []; kind = removed } ∷ []
      ]

  unfoldable pub old_changes :
      RoleMap → (matched : List String) → List (String × RoleEntry) → List UserChange
  unfolding old_entry_change
  old_changes new_map matched [] = []
  old_changes new_map matched ((key, e) ∷ es) =
      old_entry_change new_map matched key e ++ old_changes new_map matched es

  unfoldable pub diff_user_changes : ProjectSettings → ProjectSettings → List UserChange
  unfolding build_map new_changes old_changes
  diff_user_changes old_settings new_settings =
      let old_map = build_map old_settings in
      let new_map = build_map new_settings in
      let fresh = new_changes old_map new_map.primary in
      fresh.0 ++ old_changes new_map fresh.1 old_map.primary
