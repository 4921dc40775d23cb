-- ===== src/Service/Subscribers/Content.antt =====
-- internal/service/document_subscriber.go: emails to the writers and auditors of a project about a new
-- document or link.
pub mod Recipients
use lfx_v2_project_service.Prelude.{
  String, Bool, true, false, not, ◌&&◌, ◌||◌, Option, none, some, List, [], ◌∷◌, ◌++◌, ◌==◌,
  if◌then◌else◌,
}
use lfx_v2_project_service.Exec.{Result, ok, err, Exec, pure, try, read, ◌>>=◌, ◌>>◌}
use lfx_v2_project_service.Domain.Model.{UserInfo, ProjectBase, ProjectSettings, ProjectFolder}
use lfx_v2_project_service.Domain.Message.{DocumentCreated, LinkCreated}
use lfx_v2_project_service.Domain.Repository.{ProjectRepository, FolderRepository}
use lfx_v2_project_service.Service.Core.{Ready}
use lfx_v2_project_service.Service.Email.{render_project_document_uploaded}
use lfx_v2_project_service.Service.Subscribers.Roles.{contains}
use lfx_v2_project_service.Service.Subscribers.Settings.{
  Notices, Outside, recipient_name, build_project_url, resolve_actor_display_name, send_rendered,
}

pub record ProjectContentItem : Type 0 where
  pub project_uid : String
  pub folder_uid : String
  pub item_type : String
  pub item_name : String
  pub file_name : String
  pub url : String
  pub created_by : String

-- The tests of the closure `add`, with the usernames seen.
unfoldable pub is_recipient : (uploader_username : String) → (seen : List String) → UserInfo → Bool
unfolding contains
is_recipient uploader_username seen u =
    if u.username == "" || u.email == ""
    then false
    else if not (uploader_username == "") && u.username == uploader_username
    then false
    else not (contains u.username seen)

unfoldable pub recipients_from :
    (uploader_username : String) → (seen : List String) → List UserInfo → List UserInfo
unfolding is_recipient
recipients_from uploader seen [] = []
recipients_from uploader seen (u ∷ us) =
    let skipped = recipients_from uploader seen us in
    let taken = u ∷ recipients_from uploader (u.username ∷ seen) us in
    if is_recipient uploader seen u then taken else skipped

-- The loop over the writers goes on with the auditors.
unfoldable pub collect_document_recipients :
    ProjectSettings → (uploader_username : String) → List UserInfo
unfolding recipients_from
collect_document_recipients s uploader = recipients_from uploader [] (s.writers ++ s.auditors)

module _ (cfg : Notices) (out : Outside) {W : Type 0} (r : Ready W) where
  -- The name of the folder of the item, "" where it cannot be read.
  unfoldable pub folder_name : ProjectContentItem → W → String
  folder_name item w =
      if item.folder_uid == ""
      then ""
      else elim (r.folders.get_folder item.project_uid item.folder_uid w) [
        | ok found ↦ found.0.name
        | err e ↦ ""
      ]

  module _ (item : ProjectContentItem)
      (project_name folder uploader_name project_url : String) where
    -- The goroutine of one recipient.
    unfoldable pub notify : UserInfo → Exec W (Unit {0})
    unfolding send_rendered recipient_name render_project_document_uploaded
    notify u = send_rendered r u.email (
        render_project_document_uploaded out.templates (record {
          recipient_name = recipient_name u;
          project_name = project_name;
          document_name = item.item_name;
          document_type = item.item_type;
          file_name = item.file_name;
          url = item.url;
          folder_name = folder;
          uploader_name = uploader_name;
          project_url = project_url;
        }))

    unfoldable pub notify_all : List UserInfo → Exec W (Unit {0})
    unfolding notify
    notify_all [] = pure tt
    notify_all (u ∷ us) = do try (notify u); notify_all us

  unfoldable pub handle_project_content_created : ProjectContentItem → Exec W (Unit {0})
  unfolding folder_name collect_document_recipients build_project_url resolve_actor_display_name
      notify_all
  handle_project_content_created item = do
    found ← try (read (r.projects.get_project_base item.project_uid))
    elim found [
      | err e ↦ pure tt
      | ok project ↦ do
        stored ← try (read (r.projects.get_project_settings item.project_uid))
        elim stored [
          | err e ↦ pure tt
          | ok s ↦ do
            folder ← read (λ w. ok (folder_name item w))
            elim (collect_document_recipients s item.created_by) [
              | [] ↦ pure tt
              | u ∷ us ↦ do
                uploader ← read (λ w. ok (
                    resolve_actor_display_name (some r.users)
                      (record { username = item.created_by; name = ""; email = "" }) w))
                notify_all item project.name folder uploader
                    (build_project_url out cfg.lfx_self_serve_base_url project.slug) (u ∷ us)
            ]
        ]
    ]

  unfoldable pub document_item : DocumentCreated → ProjectContentItem
  document_item event = record {
    project_uid = event.project_uid;
    folder_uid = event.folder_uid;
    item_type = "file";
    item_name = event.name;
    file_name = event.file_name;
    url = "";
    created_by = event.created_by;
  }

  unfoldable pub link_item : LinkCreated → ProjectContentItem
  link_item event = record {
    project_uid = event.project_uid;
    folder_uid = event.folder_uid;
    item_type = "link";
    item_name = event.name;
    file_name = "";
    url = event.url;
    created_by = event.created_by;
  }

  unfoldable pub handle_project_document_created : Result DocumentCreated → Exec W (Unit {0})
  unfolding document_item handle_project_content_created
  handle_project_document_created (err e) = pure tt
  handle_project_document_created (ok event) =
      if not cfg.emails_enabled
      then pure tt
      else handle_project_content_created (document_item event)

  unfoldable pub handle_project_link_created : Result LinkCreated → Exec W (Unit {0})
  unfolding link_item handle_project_content_created
  handle_project_link_created (err e) = pure tt
  handle_project_link_created (ok event) =
      if not cfg.emails_enabled then pure tt else handle_project_content_created (link_item event)
