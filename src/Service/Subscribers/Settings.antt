-- ===== src/Service/Subscribers/Settings.antt =====
-- HandleProjectSettingsUpdated of internal/service/project_subscriber.go: emails to users with an
-- account (an LFID) and invites to users without one, after the settings of a project have changed.
pub mod Rendering
pub mod Delivery
use lfx_v2_project_service.Prelude.{
  String, Bool, true, false, not, ◌&&◌, Option, none, some, List, [], ◌∷◌, ◌==◌, if◌then◌else◌,
}
use lfx_v2_project_service.Prelude.Text.{sprintf, trim_space, trim_right_slashes}
use lfx_v2_project_service.Exec.{Result, ok, err, Exec, pure, try, read, ◌>>=◌, ◌>>◌}
use lfx_v2_project_service.Domain.Model.{ProjectBase, ProjectSettings, UserInfo}
use lfx_v2_project_service.Domain.Message.{
  Actor, ProjectSettingsUpdated, EmailRequest, InviteRequest,
}
use lfx_v2_project_service.Domain.Repository.{MessageBuilder, UserReader, UserMetadata}
use lfx_v2_project_service.Service.Core.{Ready, background}
use lfx_v2_project_service.Service.Runtime.{Runtime}
use lfx_v2_project_service.Service.Email.{
  Email, Templates, render_project_role_notification, render_project_role_changed,
  render_project_role_removed,
}
use lfx_v2_project_service.Service.Subscribers.Roles.{
  InviteRoles, roles_equal, set_diff_roles, is_writer_superseded_no_op, roles_for_display,
  map_role_to_invite_role, roles_to_send,
}
use lfx_v2_project_service.Service.Subscribers.Diff.{
  ChangeKind, added, changed, removed, UserChange, diff_user_changes,
}

-- The fields of ServiceConfig that the subscribers read.
pub record Notices : Type 0 where
  pub lfx_self_serve_base_url : String
  pub emails_enabled : Bool
  pub invites_enabled : Bool

-- What the subscribers take from outside: url.QueryEscape, the access levels of the invite service and
-- the templates.
pub record Outside : Type 0 where
  pub query_escape : String → String
  pub invite_roles : InviteRoles
  pub templates : Templates

abbrev first_nonempty : String → String → String
first_nonempty a b = if a == "" then b else a

-- The name by which a recipient is addressed: the name, else the username, else the email.
unfoldable pub recipient_name : UserInfo → String
recipient_name u = first_nonempty u.name (first_nonempty u.username u.email)

unfoldable pub build_project_url : Outside → String → String → String
unfolding trim_right_slashes
build_project_url out base_url slug =
    let base = sprintf (trim_right_slashes base_url) "/project/overview" in
    if slug == "" then base else sprintf base (sprintf "?project=" (out.query_escape slug))

-- The name in a user's metadata, "" for none.
abbrev name_of : Result UserMetadata → String
name_of (err e) = ""
name_of (ok m) =
    first_nonempty m.name (trim_space (sprintf m.given_name (sprintf " " m.family_name)))

abbrev looked_up : {W : Type 0} → Option (UserReader W) → String → W → String
looked_up none username w = ""
looked_up (some users) username w =
    if username == "" then "" else name_of (users.user_metadata_by_principal username w)

unfoldable pub resolve_actor_display_name :
    {W : Type 0} → Option (UserReader W) → Actor → W → String
resolve_actor_display_name users actor w =
    first_nonempty actor.name
      (first_nonempty (looked_up users actor.username w) "A project administrator")

module _ {W : Type 0} (r : Ready W) where
  -- An email that could not be rendered is not sent; the error of a send is only logged.
  unfoldable pub send_rendered : String → Result Email → Exec W (Unit {0})
  send_rendered to (err e) = pure tt
  send_rendered to (ok m) = background (
      r.messages.send_email_request
        (record { to = to; subject = m.subject; html = m.html; text = m.text }))

module _ (rt : Runtime) (cfg : Notices) (out : Outside) {W : Type 0} (r : Ready W) where
  -- The arguments that the sends for one change share.
  module _ (project_uid project_name inviter_name project_url : String) (change : UserChange) where
    unfoldable pub role_notification_email : Result Email
    unfolding render_project_role_notification roles_for_display recipient_name
    role_notification_email = render_project_role_notification out.templates (record {
      recipient_name = recipient_name change.user;
      project_name = project_name;
      roles = roles_for_display change.new_roles;
      joined_roles = "";
      project_url = project_url;
      inviter_name = inviter_name;
      capability_groups = [];
    })

    unfoldable pub role_changed_email : Result Email
    unfolding render_project_role_changed roles_for_display recipient_name
    role_changed_email = render_project_role_changed out.templates (record {
      recipient_name = recipient_name change.user;
      project_name = project_name;
      old_roles = roles_for_display change.old_roles;
      new_roles = roles_for_display change.new_roles;
      old_joined_roles = "";
      new_joined_roles = "";
      old_role_word = "";
      new_role_word = "";
      project_url = project_url;
      inviter_name = inviter_name;
      new_capability_groups = [];
    })

    unfoldable pub role_removed_email : Result Email
    unfolding render_project_role_removed roles_for_display recipient_name
    role_removed_email = render_project_role_removed out.templates (record {
      recipient_name = recipient_name change.user;
      project_name = project_name;
      old_roles = roles_for_display change.old_roles;
      old_joined_roles = "";
      old_role_word = "";
      old_role_verb = "";
      inviter_name = inviter_name;
    })

    -- Whether a change of roles is not told: the user's visible access is the same.
    unfoldable pub is_suppressed : Bool
    unfolding is_writer_superseded_no_op roles_equal roles_for_display
    is_suppressed =
        if is_writer_superseded_no_op change.old_roles change.new_roles
        then true
        else roles_equal (roles_for_display change.old_roles) (roles_for_display change.new_roles)

    unfoldable pub handle_lfid_change : Exec W (Unit {0})
    unfolding send_rendered role_notification_email role_changed_email role_removed_email
        is_suppressed
    handle_lfid_change = if not cfg.emails_enabled then pure tt else elim change.kind [
      | added ↦ send_rendered r change.user.email role_notification_email
      | changed ↦
          if is_suppressed then pure tt else send_rendered r change.user.email role_changed_email
      | removed ↦ send_rendered r change.user.email role_removed_email
    ]

    -- sendInvite; its errors are only logged.
    unfoldable pub send_invite : String → Exec W (Unit {0})
    unfolding map_role_to_invite_role recipient_name
    send_invite role =
        let level = map_role_to_invite_role out.invite_roles role in
        if level == "" then pure tt else do
          try (
              r.messages.send_invite_request (record {
                recipient_email = change.user.email;
                recipient_name = recipient_name change.user;
                inviter_name = inviter_name;
                resource_uid = project_uid;
                resource_name = project_name;
                resource_type = "project";
                role = level;
                return_url = project_url;
                expiration_days = 30;
              }))
          pure tt

    unfoldable pub send_invites : List String → Exec W (Unit {0})
    unfolding send_invite
    send_invites [] = pure tt
    send_invites (role ∷ roles) = do send_invite role; send_invites roles

    unfoldable pub roles_to_invite : List String
    unfolding is_writer_superseded_no_op set_diff_roles
    roles_to_invite = elim change.kind [
      | added ↦ change.new_roles
      | changed ↦
          if is_writer_superseded_no_op change.old_roles change.new_roles
          then []
          else set_diff_roles change.new_roles change.old_roles
      | removed ↦ []
    ]

    unfoldable pub handle_non_lfid_change : Exec W (Unit {0})
    unfolding send_invites roles_to_invite roles_to_send
    handle_non_lfid_change =
        if not cfg.invites_enabled
        then pure tt
        else send_invites (roles_to_send out.invite_roles [] roles_to_invite)

    -- The goroutine of one change.
    unfoldable pub handle_change : Exec W (Unit {0})
    unfolding handle_lfid_change handle_non_lfid_change
    handle_change =
        if change.user.email == ""
        then pure tt
        else if change.user.username == ""
        then handle_non_lfid_change
        else handle_lfid_change

  unfoldable pub handle_changes :
      (project_uid project_name inviter_name project_url : String)
      → List UserChange
      → Exec W (Unit {0})
  unfolding handle_change
  handle_changes uid name inviter url [] = pure tt
  handle_changes uid name inviter url (c ∷ cs) = do
    try (handle_change uid name inviter url c)
    handle_changes uid name inviter url cs

  -- The message is the decoded event, or the error of decoding it.
  unfoldable pub handle_project_settings_updated : Result ProjectSettingsUpdated → Exec W (Unit {0})
  unfolding diff_user_changes build_project_url resolve_actor_display_name handle_changes
  handle_project_settings_updated (err e) = pure tt
  handle_project_settings_updated (ok event) =
      elim (diff_user_changes rt event.old_settings event.new_settings) [
        | [] ↦ pure tt
        | c ∷ cs ↦ do
          found ← try (read (r.projects.get_project_base event.project_uid))
          elim found [
            | err e ↦ pure tt
            | ok project ↦ do
              inviter ← read (λ w. ok (resolve_actor_display_name (some r.users) event.actor w))
              handle_changes event.project_uid project.name inviter
                  (build_project_url out cfg.lfx_self_serve_base_url project.slug) (c ∷ cs)
          ]
      ]
