-- ===== src/Service/Subscribers/Roles.antt =====
-- The roles of internal/service/project_subscriber.go: their comparison, their names in emails and
-- their access levels in invites.
use lfx_v2_project_service.Prelude.{
  String, Bool, true, false, not, ◌&&◌, ◌||◌, List, [], ◌∷◌, ◌++◌, ◌==◌, if◌then◌else◌,
}

abbrev pub role_writer : String
role_writer = "Writer"

abbrev pub role_auditor : String
role_auditor = "Auditor"

abbrev pub role_meeting_coordinator : String
role_meeting_coordinator = "Meeting Coordinator"

-- A loop that looks for a string in a slice, or the test of a key in a set.
unfoldable pub contains : String → List String → Bool
contains r [] = false
contains r (s ∷ ss) = s == r || contains r ss

unfoldable pub roles_equal : List String → List String → Bool
roles_equal [] [] = true
roles_equal [] (b ∷ bs) = false
roles_equal (a ∷ as_) [] = false
roles_equal (a ∷ as_) (b ∷ bs) = a == b && roles_equal as_ bs

unfoldable pub set_diff_roles : List String → List String → List String
unfolding contains
set_diff_roles [] bs = []
set_diff_roles (r ∷ rs) bs =
    let rest = set_diff_roles rs bs in if contains r bs then rest else r ∷ rest

unfoldable pub has_writer_role : List String → Bool
unfolding contains
has_writer_role roles = contains role_writer roles

abbrev pub is_nonempty : List String → Bool
is_nonempty [] = false
is_nonempty (r ∷ rs) = true

-- The last loop of isWriterSupersededNoOp.
unfoldable pub all_subordinate : List String → Bool
all_subordinate [] = true
all_subordinate (r ∷ rs) =
    if not (r == role_auditor) && not (r == role_meeting_coordinator)
    then false
    else all_subordinate rs

unfoldable pub is_writer_superseded_no_op : List String → List String → Bool
unfolding has_writer_role set_diff_roles all_subordinate
is_writer_superseded_no_op old_roles new_roles =
    let gained = set_diff_roles new_roles old_roles in
    let lost = set_diff_roles old_roles new_roles in
    if not (has_writer_role old_roles) || not (has_writer_role new_roles)
    then false
    else if is_nonempty gained && is_nonempty lost
    then false
    else is_nonempty (gained ++ lost) && all_subordinate (gained ++ lost)

unfoldable pub role_display_name : String → String
role_display_name role =
    if role == role_writer then "Manage" else if role == role_auditor then "View" else role

-- The loop of rolesForDisplay; `seen` holds the names in `result`, in its order.
unfoldable pub display_names : (seen : List String) → List String → List String
unfolding role_display_name contains
display_names seen [] = seen
display_names seen (r ∷ rs) =
    display_names
      (if contains (role_display_name r) seen then seen else seen ++ role_display_name r ∷ []) rs

unfoldable pub roles_for_display : List String → List String
unfolding display_names contains
roles_for_display roles =
    let result = display_names [] roles in
    if contains "Manage" result then "Manage" ∷ [] else result

-- The access levels of the invite service (InviteRoleManage and InviteRoleView).
pub record InviteRoles : Type 0 where
  pub manage : String
  pub view : String

-- "" stands for no level.
unfoldable pub map_role_to_invite_role : InviteRoles → String → String
map_role_to_invite_role levels role =
    if role == role_writer || role == role_meeting_coordinator
    then levels.manage
    else if role == role_auditor
    then levels.view
    else ""

-- The roles for which the loop of handleNonLFIDChange sends an invite, given the levels seen.
unfoldable pub roles_to_send : InviteRoles → (seen : List String) → List String → List String
unfolding map_role_to_invite_role contains
roles_to_send levels seen [] = []
roles_to_send levels seen (role ∷ roles) =
    let level = map_role_to_invite_role levels role in
    let skipped = roles_to_send levels seen roles in
    let sent = role ∷ roles_to_send levels (level ∷ seen) roles in
    if level == "" || contains level seen then skipped else sent
