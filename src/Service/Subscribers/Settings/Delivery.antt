-- ===== src/Service/Subscribers/Settings/Delivery.antt =====
-- The emails of HandleProjectSettingsUpdated in internal/service/project_subscriber.go, as calls that a
-- traced service records.
use mathlib.Core.Path.{subst}
use lfx_v2_project_service.Prelude.{
  String, Bool, true, false, ◌||◌, inl, inr, some, List, [], ◌∷◌, ◌==◌, ◌≡◌, refl, arith, eq_iff,
  Member,
}
use lfx_v2_project_service.Exec.{Result, ok, err}
use lfx_v2_project_service.Domain.Model.{ProjectBase}
use lfx_v2_project_service.Domain.Message.{ProjectSettingsUpdated, email}
use lfx_v2_project_service.Service.Core.{Ready}
use lfx_v2_project_service.Service.Runtime.{Runtime}
use lfx_v2_project_service.Service.Email.{Email}
use lfx_v2_project_service.Service.Trace.{Call, sent, Traced, traced}
use lfx_v2_project_service.Service.Subscribers.Roles.{roles_to_send}
use lfx_v2_project_service.Service.Subscribers.Diff.{added, UserChange, diff_user_changes}
use lfx_v2_project_service.Service.Subscribers.Diff.Shape.{diff_user_changes-added}
use lfx_v2_project_service.Service.Subscribers.Settings.Rendering.{
  Prints, role_notification_email-renders,
}
use lfx_v2_project_service.Service.Subscribers.Settings.{
  Notices, Outside, send_rendered, send_invite, send_invites, handle_lfid_change,
  handle_non_lfid_change, handle_change, handle_changes, handle_project_settings_updated,
  build_project_url, resolve_actor_display_name, role_notification_email, role_changed_email,
  role_removed_email, roles_to_invite,
}

abbrev is_email_to : String → Call → Bool
is_email_to to (sent (email req)) = req.to == to
is_email_to to _ = false

-- Whether the email service has been asked to send something to an address.
abbrev pub is_emailed : String → List Call → Bool
is_emailed to [] = false
is_emailed to (c ∷ calls) = is_email_to to c || is_emailed to calls

module _ (rt : Runtime) (cfg : Notices) (out : Outside) {W : Type 0} (r : Ready W)
    (to : String) where
  send_rendered-keeps :
      (address : String) (m : Result Email) (s : Traced W)
      → is_emailed to s.1 ≡ true
      → is_emailed to (send_rendered (traced r) address m s).1.1 ≡ true
  unfolding send_rendered traced
  send_rendered-keeps address (err e) s h = h
  send_rendered-keeps address (ok m) s h = ground arith

  send_rendered-sends :
      (m : Email) (s : Traced W) → is_emailed to (send_rendered (traced r) to (ok m) s).1.1 ≡ true
  unfolding send_rendered traced
  send_rendered-sends m s = ground (arith, eq_iff to to)

  module _ (project_uid project_name inviter_name project_url : String) (change : UserChange) where
    send_invite-keeps :
        (role : String) (s : Traced W)
        → is_emailed to s.1 ≡ true
        → is_emailed to
            (send_invite rt cfg out
              (traced r)
              project_uid
              project_name
              inviter_name
              project_url
              change
              role
              s).1.1
          ≡ true
    unfolding send_invite traced
    send_invite-keeps role s h = ground arith

    send_invites-keeps :
        (roles : List String) (s : Traced W)
        → is_emailed to s.1 ≡ true
        → is_emailed to
            (send_invites rt cfg out
              (traced r)
              project_uid
              project_name
              inviter_name
              project_url
              change
              roles
              s).1.1
          ≡ true
    unfolding send_invites
    send_invites-keeps [] s h = h
    send_invites-keeps (role ∷ roles) s h =
        let one =
          send_invite rt cfg out (traced r) project_uid project_name inviter_name project_url change
            role in
        let told = send_invite-keeps role s h in
        ground (arith, told, send_invites-keeps roles (one s).1 told)

    handle_lfid_change-keeps :
        (s : Traced W)
        → is_emailed to s.1 ≡ true
        → is_emailed to
            (handle_lfid_change rt cfg out
              (traced r)
              project_uid
              project_name
              inviter_name
              project_url
              change
              s).1.1
          ≡ true
    unfolding handle_lfid_change
    handle_lfid_change-keeps s h = ground (
      arith,
      send_rendered-keeps change.user.email
          (role_notification_email rt cfg out (traced r) project_uid project_name inviter_name
            project_url change)
          s h,
      send_rendered-keeps change.user.email
          (role_changed_email rt cfg out (traced r) project_uid project_name inviter_name
            project_url change)
          s h,
      send_rendered-keeps change.user.email
          (role_removed_email rt cfg out (traced r) project_uid project_name inviter_name
            project_url change)
          s h,
    )

    handle_change-keeps :
        (s : Traced W)
        → is_emailed to s.1 ≡ true
        → is_emailed to
            (handle_change rt cfg out
              (traced r)
              project_uid
              project_name
              inviter_name
              project_url
              change
              s).1.1
          ≡ true
    unfolding handle_change handle_non_lfid_change
    handle_change-keeps s h = ground (
      arith,
      handle_lfid_change-keeps s h,
      send_invites-keeps
          (roles_to_send out.invite_roles [] (
            roles_to_invite rt cfg out (traced r) project_uid project_name inviter_name project_url
              change))
          s h,
    )

    handle_change-sends :
        (m : Email) (s : Traced W)
        → cfg.emails_enabled ≡ true
        → change.kind ≡ added
        → change.user.email ≡ to
        → (to == "") ≡ false
        → (change.user.username == "") ≡ false
        → role_notification_email rt cfg out
            (traced r)
            project_uid
            project_name
            inviter_name
            project_url
            change
          ≡ ok m
        → is_emailed to
            (handle_change rt cfg out
              (traced r)
              project_uid
              project_name
              inviter_name
              project_url
              change
              s).1.1
          ≡ true
    unfolding handle_change handle_lfid_change
    handle_change-sends m s enabled kind addressed given named rendered =
        ground (arith, send_rendered-sends m s)

  -- Until the end of the loop over the changes, an email that has been asked for stays in the record.
  handle_changes-keeps :
      (project_uid project_name inviter_name project_url : String) (changes : List UserChange)
      (s : Traced W)
      → is_emailed to s.1 ≡ true
      → is_emailed to
          (handle_changes rt cfg out
            (traced r)
            project_uid
            project_name
            inviter_name
            project_url
            changes
            s).1.1
        ≡ true
  unfolding handle_changes
  handle_changes-keeps project_uid project_name inviter_name project_url [] s h = h
  handle_changes-keeps project_uid project_name inviter_name project_url (c ∷ cs) s h =
      let one =
        handle_change rt cfg out (traced r) project_uid project_name inviter_name project_url c in
      let told = handle_change-keeps project_uid project_name inviter_name project_url c s h in
      handle_changes-keeps project_uid project_name inviter_name project_url cs (one s).1 told

  handle_changes-sends :
      (project_uid project_name inviter_name project_url : String) (changes : List UserChange)
      (change : UserChange) (m : Email) (s : Traced W)
      → Member change changes
      → cfg.emails_enabled ≡ true
      → change.kind ≡ added
      → change.user.email ≡ to
      → (to == "") ≡ false
      → (change.user.username == "") ≡ false
      → role_notification_email rt cfg out
          (traced r)
          project_uid
          project_name
          inviter_name
          project_url
          change
        ≡ ok m
      → is_emailed to
          (handle_changes rt cfg out
            (traced r)
            project_uid
            project_name
            inviter_name
            project_url
            changes
            s).1.1
        ≡ true
  unfolding handle_changes
  handle_changes-sends project_uid project_name inviter_name project_url [] change m s mem enabled
        kind addressed given named rendered =
      absurd mem
  handle_changes-sends project_uid project_name inviter_name project_url (c ∷ cs) change m s (inl e)
        enabled kind addressed given named rendered =
      let one =
        handle_change rt cfg out (traced r) project_uid project_name inviter_name project_url c in
      let sends : is_emailed to (one s).1.1 ≡ true =
        subst
          (λ (x : UserChange).
            is_emailed to
              (handle_change rt cfg out (traced r) project_uid project_name inviter_name project_url
                x s).1.1
            ≡ true)
          e
          (handle_change-sends project_uid project_name inviter_name project_url change m s enabled
            kind addressed given named rendered) in
      handle_changes-keeps project_uid project_name inviter_name project_url cs (one s).1 sends
  handle_changes-sends project_uid project_name inviter_name project_url (c ∷ cs) change m s
        (inr later) enabled kind addressed given named rendered =
      let one =
        handle_change rt cfg out (traced r) project_uid project_name inviter_name project_url c in
      handle_changes-sends project_uid project_name inviter_name project_url cs change m (one s).1
        later enabled kind addressed given named rendered

-- With emails enabled, the event of an update asks the email service to send something to the address
-- of every added user with a username and an email, whether or not the sends to others succeed, if the
-- project can be read and the two templates print.
pub settings_updated-emails :
    (rt : Runtime) (cfg : Notices) (out : Outside) {W : Type 0} (r : Ready W)
    (event : ProjectSettingsUpdated) (project : ProjectBase) (change : UserChange) (s : Traced W)
    → cfg.emails_enabled ≡ true
    → Prints out.templates
    → r.projects.get_project_base event.project_uid s.0 ≡ ok project
    → Member change (diff_user_changes rt event.old_settings event.new_settings)
    → change.kind ≡ added
    → (change.user.username == "") ≡ false
    → (change.user.email == "") ≡ false
    → is_emailed change.user.email
        (handle_project_settings_updated rt cfg out (traced r) (ok event) s).1.1
      ≡ true
unfolding handle_project_settings_updated traced
settings_updated-emails rt cfg out r event project change s enabled prints found mem kind named
      given =
    let changes = diff_user_changes rt event.old_settings event.new_settings in
    let inviter = resolve_actor_display_name (some (traced r).users) event.actor s in
    let url = build_project_url out cfg.lfx_self_serve_base_url project.slug in
    let has =
      (diff_user_changes-added rt event.old_settings event.new_settings change mem kind).1 in
    let (m, rendered) =
      role_notification_email-renders rt cfg out (traced r) event.project_uid project.name inviter
        url change prints has in
    let sends =
      handle_changes-sends rt cfg out r change.user.email event.project_uid project.name inviter url
        changes change m s mem enabled kind refl given named rendered in
    ground (arith, sends)
