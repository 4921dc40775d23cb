-- ===== src/Service/Email.antt =====
-- internal/service/email: the subjects of the emails and the values that their templates get. The
-- execution of the templates by html/template and text/template is a parameter.
use lfx_v2_project_service.Prelude.{
  String, ◌≡◌, refl, Option, none, some, List, [], ◌∷◌, ◌==◌, if◌then◌else◌,
}
use lfx_v2_project_service.Prelude.Text.{sprintf}
use lfx_v2_project_service.Exec.{Result, ok, err, bind}
use lfx_v2_project_service.Domain.Error.{other}

-- RoleCapabilityGroup
pub record CapabilityGroup : Type 0 where
  pub role : String
  pub items : List String

-- A subject with its two bodies.
pub record Email : Type 0 where
  pub subject : String
  pub html : String
  pub text : String

pub record RoleNotificationData : Type 0 where
  pub recipient_name : String
  pub project_name : String
  pub roles : List String
  pub joined_roles : String
  pub project_url : String
  pub inviter_name : String
  pub capability_groups : List CapabilityGroup

pub record RoleChangedData : Type 0 where
  pub recipient_name : String
  pub project_name : String
  pub old_roles : List String
  pub new_roles : List String
  pub old_joined_roles : String
  pub new_joined_roles : String
  pub old_role_word : String
  pub new_role_word : String
  pub project_url : String
  pub inviter_name : String
  pub new_capability_groups : List CapabilityGroup

pub record RoleRemovedData : Type 0 where
  pub recipient_name : String
  pub project_name : String
  pub old_roles : List String
  pub old_joined_roles : String
  pub old_role_word : String
  pub old_role_verb : String
  pub inviter_name : String

pub record DocumentUploadedData : Type 0 where
  pub recipient_name : String
  pub project_name : String
  pub document_name : String
  pub document_type : String
  pub file_name : String
  pub url : String
  pub folder_name : String
  pub uploader_name : String
  pub project_url : String

-- What the templates print for their data; `none` is an error of Execute.
pub record Templates : Type 0 where
  pub role_notification_html : RoleNotificationData → Option String
  pub role_notification_text : RoleNotificationData → Option String
  pub role_changed_html : RoleChangedData → Option String
  pub role_changed_text : RoleChangedData → Option String
  pub role_removed_html : RoleRemovedData → Option String
  pub role_removed_text : RoleRemovedData → Option String
  pub document_uploaded_html : DocumentUploadedData → Option String
  pub document_uploaded_text : DocumentUploadedData → Option String

-- The end of joinRoles for three and more names: strings.Join of all but the last with ", ", then
-- ", and " and the last.
unfoldable pub join_many : String → List String → String
join_many r [] = r
join_many r (s ∷ []) = sprintf r (sprintf ", and " s)
join_many r (s ∷ t ∷ rest) = sprintf r (sprintf ", " (join_many s (t ∷ rest)))

unfoldable pub join_roles : List String → String
unfolding join_many
join_roles [] = ""
join_roles (r ∷ []) = r
join_roles (r ∷ s ∷ []) = sprintf r (sprintf " and " s)
join_roles (r ∷ s ∷ t ∷ rest) = join_many r (s ∷ t ∷ rest)

-- The map roleCapabilities.
unfoldable pub role_capabilities : String → Option (List String)
role_capabilities role =
    if role == "Manage"
    then some (
        "Create & update subprojects" ∷ "Update project settings"
        ∷ "Manage project membership key contacts" ∷ "Create a vote"
        ∷ "Create project groups & mailing lists" ∷ "Create project meetings"
        ∷ "Create project past meetings" ∷ [])
    else if role == "View"
    then some (
        "View project" ∷ "View project settings"
        ∷ "View project memberships & member companies & key contacts"
        ∷ "View B2B organization memberships" ∷ [])
    else if role == "Meeting Coordinator"
    then some ("Create project meetings" ∷ "Create project past meetings" ∷ [])
    else none

unfoldable pub capability_groups_for : List String → List CapabilityGroup
unfolding role_capabilities
capability_groups_for [] = []
capability_groups_for (r ∷ rs) =
    let rest = capability_groups_for rs in
    elim (role_capabilities r) [
      | some items ↦ record { role = r; items = items } ∷ rest
      | none ↦ rest
    ]

abbrev executed : Option String → Result String
executed none = err other
executed (some body) = ok body

-- The two bodies, the HTML one first.
abbrev rendered : String → Option String → Option String → Result Email
rendered subject html text =
    bind (executed html)
      λ h. bind (executed text) λ t. ok (record { subject = subject; html = h; text = t })

-- "role" for one role, "roles" for more.
abbrev role_word : List String → String
role_word (r ∷ []) = "role"
role_word _ = "roles"

abbrev role_verb : List String → String
role_verb (r ∷ []) = "was"
role_verb _ = "were"

module _ (t : Templates) where
  unfoldable pub render_project_role_notification : RoleNotificationData → Result Email
  unfolding join_roles capability_groups_for
  render_project_role_notification d = elim d.roles [
    | [] ↦ err other
    | r ∷ rs ↦
        let joined = join_roles (r ∷ rs) in
        let full = record d {
          joined_roles = joined;
          capability_groups = capability_groups_for (r ∷ rs);
        } in
        let subject =
          if d.inviter_name == ""
          then sprintf "You have been added as " (sprintf joined (sprintf " on " d.project_name))
          else sprintf d.inviter_name
              (sprintf " added you as " (sprintf joined (sprintf " on " d.project_name))) in
        rendered subject (t.role_notification_html full) (t.role_notification_text full)
  ]

  unfoldable pub render_project_role_changed : RoleChangedData → Result Email
  unfolding join_roles capability_groups_for
  render_project_role_changed d = elim d.old_roles [
    | [] ↦ err other
    | o ∷ os ↦ elim d.new_roles [
      | [] ↦ err other
      | n ∷ ns ↦
          let full = record d {
            old_joined_roles = join_roles (o ∷ os);
            new_joined_roles = join_roles (n ∷ ns);
            old_role_word = role_word (o ∷ os);
            new_role_word = role_word (n ∷ ns);
            new_capability_groups = capability_groups_for (n ∷ ns);
          } in
          let subject =
            if d.inviter_name == ""
            then sprintf "Your role on " (sprintf d.project_name " has been updated")
            else sprintf d.inviter_name (sprintf " updated your role on " d.project_name) in
          rendered subject (t.role_changed_html full) (t.role_changed_text full)
    ]
  ]

  unfoldable pub render_project_role_removed : RoleRemovedData → Result Email
  unfolding join_roles
  render_project_role_removed d = elim d.old_roles [
    | [] ↦ err other
    | o ∷ os ↦
        let full = record d {
          old_joined_roles = join_roles (o ∷ os);
          old_role_word = role_word (o ∷ os);
          old_role_verb = role_verb (o ∷ os);
        } in
        rendered (sprintf "You have been removed from " d.project_name) (t.role_removed_html full)
          (t.role_removed_text full)
  ]

  unfoldable pub render_project_document_uploaded : DocumentUploadedData → Result Email
  render_project_document_uploaded d =
      if d.document_name == ""
      then err other
      else if d.project_name == ""
      then err other
      else let doc_type = if d.document_type == "link" then "link" else "document" in
        let subject =
          if d.uploader_name == ""
          then sprintf "A new " (sprintf doc_type (sprintf " was added to " d.project_name))
          else sprintf d.uploader_name
              (sprintf " added a " (sprintf doc_type (sprintf " to " d.project_name))) in
        rendered subject (t.document_uploaded_html d) (t.document_uploaded_text d)

joined :
    (◌≡◌ {A = String} (join_roles ("Manage" ∷ "View" ∷ [])) "Manage and View")
    × (◌≡◌ {A = String} (join_roles ("A" ∷ "B" ∷ "C" ∷ "D" ∷ [])) "A, B, C, and D")
unfolding join_roles
joined = (refl, refl)
