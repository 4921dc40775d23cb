-- ===== src/Service/Documents.antt =====
-- internal/service/document_operations.go
pub mod Validation
pub mod Rollback
use lfx_v2_project_service.Prelude.{
  ℕ, String, Bool, true, false, not, ◌&&◌, ◌||◌, Option, none, some, List, [], ◌∷◌, ◌==◌,
  if◌then◌else◌,
}
use lfx_v2_project_service.Exec.{
  Result, ok, err, Exec, map_err, bind, pure, raise, read, guard, change_err, try, is_ok,
  from_option, ◌>>=◌, ◌>>◌,
}
use lfx_v2_project_service.Domain.Error.{
  Error, project_not_found, invalid_parent_project, project_slug_exists, internal,
  revision_mismatch, validation_failed, cannot_delete_non_crowdfunding_project,
  archived_requires_dissolution_date, folder_not_found, folder_not_empty, link_not_found,
  document_not_found, invalid_content_type, file_too_large, is_project_not_found,
  is_project_slug_exists, is_revision_mismatch, is_folder_not_found, is_link_not_found,
  is_document_not_found,
}
use lfx_v2_project_service.Domain.Model.{
  ProjectBase, ProjectSettings, ProjectFolder, ProjectLink, ProjectDocument,
}
use lfx_v2_project_service.Domain.Message.{
  created, updated, deleted, envelope, bare, base, settings, folder, link, document, uid, delete_of,
  settings_updated, document_created, link_created, base_indexing_config, settings_indexing_config,
  folder_indexing_config, link_indexing_config, document_indexing_config,
}
use lfx_v2_project_service.Service.Runtime.{Runtime}
use lfx_v2_project_service.Service.Core.{
  ProjectsService, Ready, when_ready, if_match_revision, checked_revision, wait_group, background,
  send_sync, run_sync,
}
use lfx_v2_project_service.Prelude.{length, ltb, nat_eq, ◌*◌}
use lfx_v2_project_service.Prelude.Text.{format_uint}
use lfx_v2_project_service.Service.Folders.{existing_folder, stated_folder, folder_ref}

-- pkg/constants/nats.go
abbrev pub document_subject : String
document_subject = "lfx.index.project_document"

abbrev pub document_created_subject : String
document_created_subject = "lfx.projects-api.project_document.created"

-- internal/domain/models/document.go
abbrev pub max_document_file_size : ℕ
max_document_file_size = 10 * 1024 * 1024

abbrev pub allowed_document_content_types : List String
allowed_document_content_types =
    "application/pdf" ∷ "application/vnd.openxmlformats-officedocument.wordprocessingml.document"
    ∷ "application/msword" ∷ "application/vnd.openxmlformats-officedocument.spreadsheetml.sheet"
    ∷ "application/vnd.ms-excel"
    ∷ "application/vnd.openxmlformats-officedocument.presentationml.presentation"
    ∷ "application/vnd.ms-powerpoint" ∷ "text/plain" ∷ "text/csv" ∷ "image/png" ∷ "image/jpeg"
    ∷ "image/gif" ∷ "application/zip" ∷ []

is_member : String → List String → Bool
is_member t [] = false
is_member t (u ∷ us) = u == t || is_member t us

-- models.AllowedDocumentContentTypes[t]
unfoldable pub is_allowed : String → Bool
unfolding is_member
is_allowed t = is_member t allowed_document_content_types

-- The switch on the sniffed type; `none` is the default branch.
unfoldable pub effective_content_type : (sniffed declared : String) → Option String
effective_content_type sniffed declared =
    if is_allowed sniffed
    then some sniffed
    else if sniffed == "application/octet-stream"
    then some declared
    else none

abbrev document_not_found_or_internal : Error → Error
document_not_found_or_internal e = if is_document_not_found e then document_not_found else internal

module _ (rt : Runtime) where
  -- The validation of UploadDocument, up to the content type that is stored.
  unfoldable pub validate_upload : (name file_name content_type : String) → List ℕ → Result String
  validate_upload name file_name content_type file_data =
      if name == "" || file_name == ""
      then err validation_failed
      else if nat_eq (length file_data) 0
      then err validation_failed
      else if not (is_allowed content_type)
      then err invalid_content_type
      else if ltb max_document_file_size (length file_data)
      then err file_too_large
      else elim (effective_content_type (rt.sniff file_data) content_type) [
        | none ↦ err invalid_content_type
        | some t ↦ ok t
      ]

  module _ {W : Type 0} (s : ProjectsService W) where
    -- The file, then the metadata; each failure undoes what was written before.
    unfoldable pub store_document : Ready W → ProjectDocument → List ℕ → String → Exec W (Unit {0})
    store_document r d file_data unique_key = do
      stored ← try (r.documents.put_document_file d.uid file_data)
      elim stored [
        | err e ↦ do try (r.documents.delete_unique_document_name unique_key); raise e
        | ok _ ↦ do
          written ← try (r.documents.create_document_metadata d)
          elim written [
            | err e ↦ do
              try (r.documents.delete_document_file d.uid)
              try (r.documents.delete_unique_document_name unique_key)
              raise e
            | ok _ ↦ pure tt
          ]
      ]

    new_document :
        String
        → (name description file_name content_type : String) → Option String
        → List ℕ
        → ProjectDocument
    new_document project_uid name description file_name content_type folder_uid file_data = record {
      uid = rt.new_uid;
      project_uid = project_uid;
      folder_uid = folder_uid;
      name = name;
      description = description;
      file_name = file_name;
      file_size = length file_data;
      content_type = content_type;
      uploaded_by_username = rt.principal;
      created_at = rt.now;
      updated_at = rt.now;
    }

    unfoldable pub upload_document :
        String
        → (name description file_name content_type : String) → Option String
        → List ℕ
        → Bool
        → Exec W ProjectDocument
    unfolding validate_upload store_document new_document
    upload_document project_uid name description file_name content_type folder_uid file_data
          x_sync =
        when_ready s λ r. do
          effective ← read (λ w. validate_upload name file_name content_type file_data)
          found ← change_err (λ _. internal) (read (r.projects.project_exists project_uid))
          guard found project_not_found
          existing_folder r project_uid (stated_folder folder_uid)
          let d =
              new_document project_uid name description file_name effective
                (stated_folder folder_uid) file_data
          unique_key ← r.documents.unique_document_name d
          store_document r d file_data unique_key
          send_sync x_sync (
              r.messages.send_indexer_message document_subject
                (envelope created (document d) (document_indexing_config d)))
          background (
              r.messages.send_project_event_message document_created_subject (
                document_created (record {
                  project_uid = d.project_uid;
                  document_uid = d.uid;
                  name = d.name;
                  file_name = d.file_name;
                  folder_uid = folder_ref d.folder_uid;
                  created_by = d.uploaded_by_username;
                })))
          pure d

    unfoldable pub get_document_metadata : String → String → Exec W (ProjectDocument × String)
    get_document_metadata project_uid document_uid = when_ready s λ r. do
      found ←
          change_err document_not_found_or_internal
            (read (r.documents.get_document_metadata project_uid document_uid))
      pure (found.0, format_uint found.1)

    unfoldable pub get_document_file : String → String → Exec W (List ℕ × ProjectDocument)
    get_document_file project_uid document_uid = when_ready s λ r. do
      found ←
          change_err document_not_found_or_internal
            (read (r.documents.get_document_metadata project_uid document_uid))
      file_data ← read (r.documents.get_document_file document_uid)
      pure (file_data, found.0)

    deleted_document : String → String → ProjectDocument
    deleted_document project_uid document_uid = record {
      uid = document_uid;
      project_uid = project_uid;
      folder_uid = none;
      name = "";
      description = "";
      file_name = "";
      file_size = 0;
      content_type = "";
      uploaded_by_username = "";
      created_at = 0;
      updated_at = 0;
    }

    unfoldable pub delete_document : String → String → Option String → Bool → Exec W (Unit {0})
    unfolding deleted_document
    delete_document project_uid document_uid if_match x_sync = when_ready s λ r. do
      revision ←
          checked_revision r.skip_etag_validation if_match
            (r.documents.get_document_metadata project_uid document_uid)
      r.documents.delete_document_metadata project_uid document_uid revision
      background (r.documents.delete_document_file document_uid)
      send_sync x_sync (
          r.messages.send_indexer_message document_subject (
            envelope deleted (uid document_uid)
              (document_indexing_config (deleted_document project_uid document_uid))))
