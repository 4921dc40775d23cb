-- ===== src/Service/Subscribers/Invites.antt =====
-- HandleInviteAccepted of internal/service/project_subscriber.go: entries that hold an email only
-- become entries of the account that has accepted the invite.
pub mod Attempts
pub mod Promotion
use lfx_v2_project_service.Prelude.{
  ℕ, zero, suc, String, Bool, true, false, not, ◌&&◌, ◌||◌, none, List, [], ◌∷◌, ◌==◌,
  if◌then◌else◌, nat_eq,
}
use lfx_v2_project_service.Exec.{Result, ok, err, Exec, pure, try, read, ◌>>=◌, ◌>>◌}
use lfx_v2_project_service.Domain.Error.{is_revision_mismatch}
use lfx_v2_project_service.Domain.Model.{UserInfo, ProjectSettings}
use lfx_v2_project_service.Domain.Message.{updated, envelope, settings, settings_indexing_config}
use lfx_v2_project_service.Service.Core.{Ready, background}
use lfx_v2_project_service.Service.Runtime.{Runtime}
use lfx_v2_project_service.Service.Users.{normalize_email}
use lfx_v2_project_service.Service.Projects.Validate.{settings_subject}
use lfx_v2_project_service.Service.Subscribers.Roles.{InviteRoles}

-- The fields of InviteServiceAcceptedEvent that the handler reads.
pub record InviteAccepted : Type 0 where
  pub uid : String
  pub role : String
  pub accepted_by : String
  pub recipient_email : String

module _ (rt : Runtime) (levels : InviteRoles) where
  -- `u.Username == "" && strings.ToLower(strings.TrimSpace(u.Email)) == normalizedEmail`
  unfoldable pub is_email_only_match : String → UserInfo → Bool
  unfolding normalize_email
  is_email_only_match email u = u.username == "" && normalize_email rt u.email == email

  unfoldable pub any_email_only_match : String → List UserInfo → Bool
  unfolding is_email_only_match
  any_email_only_match email [] = false
  any_email_only_match email (u ∷ us) = is_email_only_match email u || any_email_only_match email us

  unfoldable pub has_email_only_entry : ProjectSettings → (email role : String) → Bool
  unfolding any_email_only_match
  has_email_only_entry s email role =
      if role == levels.manage
      then any_email_only_match email s.writers || any_email_only_match email s.meeting_coordinators
      else if role == levels.view
      then any_email_only_match email s.auditors
      else false

  -- The promotion in one slice, and whether there was one.
  unfoldable pub promote_slice : (email username : String) → List UserInfo → List UserInfo × Bool
  unfolding is_email_only_match
  promote_slice email username [] = ([], false)
  promote_slice email username (u ∷ us) =
      let rest = promote_slice email username us in
      if is_email_only_match email u
      then (record u { username = username; invite = none } ∷ rest.0, true)
      else (u ∷ rest.0, rest.1)

  unfoldable pub promote_settings :
      (email username role : String) → ProjectSettings → ProjectSettings × Bool
  unfolding promote_slice
  promote_settings email username role s =
      let ws = promote_slice email username s.writers in
      let ms = promote_slice email username s.meeting_coordinators in
      let as_ = promote_slice email username s.auditors in
      if role == levels.manage
      then (record s { writers = ws.0; meeting_coordinators = ms.0 }, ws.1 || ms.1)
      else if role == levels.view
      then (record s { auditors = as_.0 }, as_.1)
      else (s, false)

  module _ {W : Type 0} (r : Ready W) where
    -- What follows the update of promoted settings; `again` is the next attempt.
    unfoldable pub after_update :
        (project_uid : String)
        → ProjectSettings
        → (is_last : Bool) → Exec W (Unit {0})
        → Result (Unit {0})
        → Exec W (Unit {0})
    after_update project_uid s is_last again (ok _) = background (
        r.messages.send_indexer_message settings_subject
          (envelope updated (settings s) (settings_indexing_config s project_uid)) false)
    after_update project_uid s is_last again (err e) =
        if not (is_revision_mismatch e) || is_last then pure tt else again

    -- One attempt, once the settings are read.
    unfoldable pub attempt :
        (project_uid email username role : String)
        → (is_last : Bool) → Exec W (Unit {0})
        → Result (ProjectSettings × ℕ)
        → Exec W (Unit {0})
    unfolding promote_settings after_update
    attempt project_uid email username role is_last again (err e) = pure tt
    attempt project_uid email username role is_last again (ok stored) =
        let promoted = promote_settings email username role stored.0 in
        if not promoted.1 then pure tt else do
          done ← try (r.projects.update_project_settings promoted.0 stored.1)
          after_update project_uid promoted.0 is_last again done

    -- The loop of promoteInvitedUserInProjectSettings, with the number of attempts that are left.
    unfoldable pub promote_attempts :
        ℕ → (project_uid email username role : String) → Exec W (Unit {0})
    unfolding attempt
    promote_attempts zero project_uid email username role = pure tt
    promote_attempts (suc left) project_uid email username role =
        let again = promote_attempts left project_uid email username role in
        do
          found ← try (read (r.projects.get_project_settings_with_revision project_uid))
          attempt project_uid email username role (nat_eq left 0) again found

    unfoldable pub promote_invited_user_in_project_settings :
        (project_uid email username role : String) → Exec W (Unit {0})
    unfolding promote_attempts
    promote_invited_user_in_project_settings = promote_attempts 3

    unfoldable pub promote_candidates :
        (email username role : String) → List ProjectSettings → Exec W (Unit {0})
    unfolding has_email_only_entry promote_invited_user_in_project_settings
    promote_candidates email username role [] = pure tt
    promote_candidates email username role (s ∷ ss) =
        let others = promote_candidates email username role ss in
        if has_email_only_entry s email role
        then promote_invited_user_in_project_settings s.uid email username role >> others
        else others

    -- `if event.UID == "" || event.AcceptedBy == "" || …`, negated
    unfoldable pub is_complete : InviteAccepted → Bool
    unfolding normalize_email
    is_complete event = not (
        event.uid == ""
        || event.accepted_by == ""
        || normalize_email rt event.recipient_email == ""
        || not (event.role == levels.manage || event.role == levels.view))

    -- The message is the decoded event, or the error of decoding it.
    unfoldable pub handle_invite_accepted : Result InviteAccepted → Exec W (Unit {0})
    unfolding is_complete promote_candidates normalize_email
    handle_invite_accepted (err e) = pure tt
    handle_invite_accepted (ok event) = if not (is_complete event) then pure tt else do
      found ← try (read r.projects.list_all_projects_settings)
      elim found [
        | err e ↦ pure tt
        | ok all ↦
            promote_candidates (normalize_email rt event.recipient_email) event.accepted_by
              event.role all
      ]
