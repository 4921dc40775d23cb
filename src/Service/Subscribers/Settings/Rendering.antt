-- ===== src/Service/Subscribers/Settings/Rendering.antt =====
-- The email to an added user in internal/service/project_subscriber.go can be rendered.
use lfx_v2_project_service.Prelude.{
  String, true, inl, inr, some, List, [], ◌∷◌, ◌++◌, if◌then◌else◌, ◌≡◌, arith, Bool-cases,
}
use lfx_v2_project_service.Exec.{Result, ok, err}
use lfx_v2_project_service.Service.Core.{Ready}
use lfx_v2_project_service.Service.Runtime.{Runtime}
use lfx_v2_project_service.Service.Email.{
  Email, Templates, RoleNotificationData, render_project_role_notification, join_roles,
  capability_groups_for,
}
use lfx_v2_project_service.Service.Subscribers.Roles.{
  contains, role_display_name, display_names, roles_for_display,
}
use lfx_v2_project_service.Service.Subscribers.Diff.{UserChange}
use lfx_v2_project_service.Service.Subscribers.Diff.Shape.{
  is_nonempty, nonempty-append, contains-nonempty,
}
use lfx_v2_project_service.Service.Subscribers.Settings.{
  Notices, Outside, recipient_name, role_notification_email,
}

-- One more name.
with_name-nonempty :
    (d : String) (seen : List String)
    → is_nonempty (if contains d seen then seen else seen ++ d ∷ []) ≡ true
with_name-nonempty d seen = elim (Bool-cases (contains d seen)) [
  | inl h ↦ rw h (contains-nonempty d seen h)
  | inr h ↦ rw h (nonempty-append seen d)
]

display_names-kept :
    (roles seen : List String)
    → is_nonempty seen ≡ true
    → is_nonempty (display_names seen roles) ≡ true
unfolding display_names
display_names-kept [] seen h = h
display_names-kept (r ∷ rs) seen h =
    display_names-kept rs _ (with_name-nonempty (role_display_name r) seen)

display_names-nonempty :
    (roles : List String) → is_nonempty roles ≡ true → is_nonempty (display_names [] roles) ≡ true
unfolding display_names
display_names-nonempty [] h = absurd (ground arith)
display_names-nonempty (r ∷ rs) h =
    display_names-kept rs _ (with_name-nonempty (role_display_name r) [])

roles_for_display-nonempty :
    (roles : List String) → is_nonempty roles ≡ true → is_nonempty (roles_for_display roles) ≡ true
unfolding roles_for_display
roles_for_display-nonempty roles h = ground (arith, display_names-nonempty roles h)

-- The two templates of the email print something for any data.
abbrev pub Prints : Templates → Type 0
Prints t =
    (d : RoleNotificationData)
    → (html : String) × (text : String) × (t.role_notification_html d ≡ some html)
      × (t.role_notification_text d ≡ some text)

abbrev email_of : Result Email → Email
email_of (ok m) = m
email_of (err e) = record { subject = ""; html = ""; text = "" }

render-Prints :
    (t : Templates) (d : RoleNotificationData)
    → Prints t
    → is_nonempty d.roles ≡ true
    → (m : Email) × (render_project_role_notification t d ≡ ok m)
unfolding render_project_role_notification
render-Prints t d prints h =
    let full = record d {
      joined_roles = join_roles d.roles;
      capability_groups = capability_groups_for d.roles;
    } in
    let (html, text, prints_html, prints_text) = prints full in
    (email_of (render_project_role_notification t d), ground arith)

module _ (rt : Runtime) (cfg : Notices) (out : Outside) {W : Type 0} (r : Ready W)
    (project_uid project_name inviter_name project_url : String) where
  pub role_notification_email-renders :
      (change : UserChange)
      → Prints out.templates
      → is_nonempty change.new_roles ≡ true
      → (m : Email) × (role_notification_email rt cfg out r project_uid project_name inviter_name
            project_url change
          ≡ ok m)
  unfolding role_notification_email
  role_notification_email-renders change prints h =
      render-Prints out.templates
        (record {
          recipient_name = recipient_name change.user;
          project_name = project_name;
          roles = roles_for_display change.new_roles;
          joined_roles = "";
          project_url = project_url;
          inviter_name = inviter_name;
          capability_groups = [];
        })
        prints (roles_for_display-nonempty change.new_roles h)
