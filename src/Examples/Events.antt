-- ===== src/Examples/Events.antt =====
-- The theorems about the handlers of events, at the wired service over buckets in memory.
use lfx_v2_project_service.Prelude.{
  ◌≤◌, String, ◌≡◌, refl, inl, ◌↔◌, true, false, none, some, [], ◌∷◌, ◌==◌, Member, All,
  if◌then◌else◌,
}
use lfx_v2_project_service.Prelude.Text.{trim_space, sprintf}
use lfx_v2_project_service.Exec.{ok, err}
use lfx_v2_project_service.Domain.Error.{user_not_found}
use lfx_v2_project_service.Domain.Model.{UserInfo, ProjectSettings}
use lfx_v2_project_service.Domain.Message.{ProjectSettingsUpdated}
use lfx_v2_project_service.Nats.Memory.{Memory, memory}
use lfx_v2_project_service.Nats.Repository.{World}
use lfx_v2_project_service.Nats.Projects.{get_project_base}
use lfx_v2_project_service.Nats.Users.{AuthReplies, username_by_email}
use lfx_v2_project_service.Nats.Users.Misses.{IsMiss, IsName, username_by_email-IsMiss}
use lfx_v2_project_service.Service.Email.{Templates}
use lfx_v2_project_service.Service.Trace.{Traced, traced}
use lfx_v2_project_service.Service.Subscribers.Roles.{InviteRoles}
use lfx_v2_project_service.Service.Subscribers.Diff.{
  added, changed, UserChange, diff_user_changes, member_keys,
}
use lfx_v2_project_service.Service.Subscribers.Diff.Keys.{members}
use lfx_v2_project_service.Service.Subscribers.Diff.Shape.{is_nonempty, diff_user_changes-added}
use lfx_v2_project_service.Service.Subscribers.Settings.{
  Notices, Outside, handle_project_settings_updated,
}
use lfx_v2_project_service.Service.Subscribers.Settings.Delivery.{
  is_emailed, settings_updated-emails,
}
use lfx_v2_project_service.Service.Subscribers.Invites.{
  has_email_only_entry, promote_settings, promote_invited_user_in_project_settings,
}
use lfx_v2_project_service.Service.Subscribers.Invites.Attempts.{saves, promote_invited-saves}
use lfx_v2_project_service.Service.Subscribers.Invites.Promotion.{
  IsPromoted, promote_settings_complete,
}
use lfx_v2_project_service.Service.Subscribers.Content.{collect_document_recipients}
use lfx_v2_project_service.Service.Subscribers.Content.Recipients.{
  IsChosen, AreDistinct, usernames, collect_document_recipients-exact,
}
use lfx_v2_project_service.Examples.Sample.{
  runtime, parts, world, zephyr, zephyr_settings, ann, bob,
}

run : Unit {0}
unfolding runtime memory get_project_base diff_user_changes trim_space
run = tt

abbrev levels : InviteRoles
levels = record { manage = "Manage"; view = "View" }

abbrev templates : Templates
templates = record {
  role_notification_html = λ d. some (sprintf "<p>" d.joined_roles);
  role_notification_text = λ d. some d.joined_roles;
  role_changed_html = λ d. some d.new_joined_roles;
  role_changed_text = λ d. some d.new_joined_roles;
  role_removed_html = λ d. some d.old_joined_roles;
  role_removed_text = λ d. some d.old_joined_roles;
  document_uploaded_html = λ d. some d.document_name;
  document_uploaded_text = λ d. some d.document_name;
}

abbrev notices : Notices
notices = record {
  lfx_self_serve_base_url = "https://lfx";
  emails_enabled = true;
  invites_enabled = true;
}

abbrev outside : Outside
outside = record { query_escape = λ s. s; invite_roles = levels; templates = templates }

-- Before Bob was a writer.
abbrev earlier : ProjectSettings
earlier = record zephyr_settings { writers = ann ∷ [] }

abbrev bob_joins : ProjectSettingsUpdated
bob_joins = record {
  project_uid = "u1";
  old_settings = earlier;
  new_settings = zephyr_settings;
  actor = record { username = "carol"; name = "Carol"; email = "" };
}

abbrev bob_added : UserChange
bob_added = record { user = bob; old_roles = []; new_roles = "Writer" ∷ []; kind = added }

bob_is_added : Member bob_added (diff_user_changes runtime earlier zephyr_settings)
unfolding run
bob_is_added = inl refl

abbrev start : Traced (World Memory)
start = (world, [])

settings_updated-emails_example :
    is_emailed "bob@x.org"
      (handle_project_settings_updated runtime notices outside
        (traced parts)
        (ok bob_joins)
        start).1.1
    ≡ true
settings_updated-emails_example =
    settings_updated-emails runtime notices outside parts bob_joins zephyr bob_added start refl
      (λ d. (sprintf "<p>" d.joined_roles, d.joined_roles, refl, refl)) (unfold run in refl)
      bob_is_added refl refl refl

diff_user_changes-added_example :
    (bob_added.old_roles ≡ [])
    × (is_nonempty bob_added.new_roles ≡ true)
    × ((u : UserInfo) (k : String)
        → ¬ (
            Member u (members earlier)
            × Member k (member_keys runtime u)
            × Member k (member_keys runtime bob)))
diff_user_changes-added_example =
    diff_user_changes-added runtime earlier zephyr_settings bob_added bob_is_added refl

promote_invited-saves_example :
    saves
      (promote_invited_user_in_project_settings runtime levels
        (traced parts)
        "u1"
        "ann@x.org"
        "ann"
        "Manage"
        start).1.1
    ≤ 3
promote_invited-saves_example =
    promote_invited-saves runtime levels parts "u1" "ann@x.org" "ann" "Manage" start

promote_settings_complete_example :
    ((promote_settings runtime levels "ann@x.org" "ann" "Manage" zephyr_settings).1
      ≡ has_email_only_entry runtime levels zephyr_settings "ann@x.org" "Manage")
    × (has_email_only_entry runtime levels
          (promote_settings runtime levels "ann@x.org" "ann" "Manage" zephyr_settings).0
          "ann@x.org"
          "Manage"
        ≡ false)
    × IsPromoted runtime levels "ann@x.org" "ann" "Manage" zephyr_settings
        (promote_settings runtime levels "ann@x.org" "ann" "Manage" zephyr_settings).0
promote_settings_complete_example =
    promote_settings_complete runtime levels "ann@x.org" "ann" "Manage" zephyr_settings refl

collect_document_recipients-exact_example :
    All (IsChosen "carol" (bob ∷ ann ∷ [])) (collect_document_recipients zephyr_settings "carol")
    × AreDistinct (usernames (collect_document_recipients zephyr_settings "carol"))
    × ((name : String)
        → Member name (usernames (collect_document_recipients zephyr_settings "carol"))
          ↔ ((u : UserInfo) × IsChosen "carol" (bob ∷ ann ∷ []) u × (u.username ≡ name)))
collect_document_recipients-exact_example =
    collect_document_recipients-exact zephyr_settings "carol"

abbrev replies : AuthReplies
replies = record {
  user_metadata_response = λ reply. none;
  success_field = λ reply. if reply == "{\"success\":false}" then some (some false) else none;
}

username_by_email-IsMiss_example :
    ((username_by_email replies
          (λ subject content (w : World Memory). ok "{\"success\":false}")
          "eve@x.org"
          world
        ≡ err user_not_found)
      ↔ IsMiss replies "{\"success\":false}")
    × ((name : String)
        → (username_by_email replies
              (λ subject content (w : World Memory). ok "{\"success\":false}")
              "eve@x.org"
              world
            ≡ ok name)
          ↔ IsName "{\"success\":false}" name)
username_by_email-IsMiss_example =
    username_by_email-IsMiss replies
      (λ subject content (w : World Memory). ok "{\"success\":false}") "eve@x.org" world
      "{\"success\":false}" refl

-- One user under an email as a writer, under a username as an auditor, and under both as a meeting
-- coordinator.
abbrev split : ProjectSettings
split = record zephyr_settings {
  writers = record bob { username = "" } ∷ [];
  auditors = record bob { email = "" } ∷ [];
  meeting_coordinators = bob ∷ [];
}

-- The same settings before and after, and yet a change.
split_changes :
    diff_user_changes runtime split split
    ≡ record {
      user = record bob { username = "" };
      old_roles = "Auditor" ∷ "Meeting Coordinator" ∷ [];
      new_roles = "Writer" ∷ [];
      kind = changed;
    }
      ∷ []
unfolding run
split_changes = refl
