-- ===== src/Service/Folders.antt =====
-- internal/service/folder_operations.go
pub mod Deletion
pub mod Contents
use lfx_v2_project_service.Prelude.{
  ℕ, String, Bool, true, false, not, ◌&&◌, ◌||◌, Option, none, some, List, [], ◌∷◌, ◌==◌,
  if◌then◌else◌,
}
use lfx_v2_project_service.Exec.{
  Result, ok, err, Exec, map_err, bind, pure, raise, read, guard, change_err, try, is_ok,
  from_option, ◌>>=◌, ◌>>◌,
}
use lfx_v2_project_service.Domain.Error.{
  Error, project_not_found, invalid_parent_project, project_slug_exists, internal,
  revision_mismatch, validation_failed, cannot_delete_non_crowdfunding_project,
  archived_requires_dissolution_date, folder_not_found, folder_not_empty, link_not_found,
  document_not_found, invalid_content_type, file_too_large, is_project_not_found,
  is_project_slug_exists, is_revision_mismatch, is_folder_not_found, is_link_not_found,
  is_document_not_found,
}
use lfx_v2_project_service.Domain.Model.{
  ProjectBase, ProjectSettings, ProjectFolder, ProjectLink, ProjectDocument,
}
use lfx_v2_project_service.Domain.Message.{
  created, updated, deleted, envelope, bare, base, settings, folder, link, document, uid, delete_of,
  settings_updated, document_created, link_created, base_indexing_config, settings_indexing_config,
  folder_indexing_config, link_indexing_config, document_indexing_config,
}
use lfx_v2_project_service.Service.Runtime.{Runtime}
use lfx_v2_project_service.Service.Core.{
  ProjectsService, Ready, when_ready, if_match_revision, checked_revision, wait_group, background,
  send_sync, run_sync,
}
use lfx_v2_project_service.Prelude.Text.{format_uint}

-- pkg/constants/nats.go
abbrev pub folder_subject : String
folder_subject = "lfx.index.project_folder"

-- `p != nil && *p == uid`
abbrev pub is_in : String → Option String → Bool
is_in folder_uid none = false
is_in folder_uid (some f) = f == folder_uid

-- The loops of DeleteFolder over the links and over the documents.
unfoldable pub any_link_in : String → List ProjectLink → Bool
any_link_in folder_uid [] = false
any_link_in folder_uid (l ∷ ls) = is_in folder_uid l.folder_uid || any_link_in folder_uid ls

unfoldable pub any_document_in : String → List ProjectDocument → Bool
any_document_in folder_uid [] = false
any_document_in folder_uid (d ∷ ds) = is_in folder_uid d.folder_uid || any_document_in folder_uid ds

abbrev folder_not_found_or_internal : Error → Error
folder_not_found_or_internal e = if is_folder_not_found e then folder_not_found else internal

-- An empty folder UID stands for none.
abbrev pub stated_folder : Option String → Option String
stated_folder none = none
stated_folder (some f) = if f == "" then none else some f

-- The folder UID of an event, "" for none.
abbrev pub folder_ref : Option String → String
folder_ref none = ""
folder_ref (some f) = f

-- A link or a document may only be put into a folder of its project.
unfoldable pub existing_folder : {W : Type 0} → Ready W → String → Option String → Exec W (Unit {0})
existing_folder r project_uid none = pure tt
existing_folder r project_uid (some f) = do
  change_err folder_not_found_or_internal (read (r.folders.get_folder project_uid f))
  pure tt

module _ (rt : Runtime) {W : Type 0} (s : ProjectsService W) where
  -- The record, or the release of the name if the record cannot be written.
  unfoldable pub store_folder : Ready W → ProjectFolder → String → Exec W (Unit {0})
  store_folder r f unique_key = do
    written ← try (r.folders.create_folder f)
    elim written [
      | ok _ ↦ pure tt
      | err e ↦ do try (r.folders.delete_unique_folder_name unique_key); raise e
    ]

  new_folder : String → String → ProjectFolder
  new_folder project_uid name = record {
    uid = rt.new_uid;
    project_uid = project_uid;
    name = name;
    created_by_username = rt.principal;
    created_at = rt.now;
    updated_at = rt.now;
  }

  unfoldable pub create_folder : String → String → Bool → Exec W ProjectFolder
  unfolding store_folder new_folder
  create_folder project_uid name x_sync = when_ready s λ r. do
    guard (not (name == "")) validation_failed
    found ← change_err (λ _. internal) (read (r.projects.project_exists project_uid))
    guard found project_not_found
    let f = new_folder project_uid name
    unique_key ← r.folders.unique_folder_name f
    store_folder r f unique_key
    send_sync x_sync (
        r.messages.send_indexer_message folder_subject
          (envelope created (folder f) (folder_indexing_config f)))
    pure f

  unfoldable pub get_folder : String → String → Exec W (ProjectFolder × String)
  get_folder project_uid folder_uid = when_ready s λ r. do
    found ←
        change_err folder_not_found_or_internal (read (r.folders.get_folder project_uid folder_uid))
    pure (found.0, format_uint found.1)

  -- The folder of the indexing configuration has only its two UIDs.
  deleted_folder : String → String → ProjectFolder
  deleted_folder project_uid folder_uid = record {
    uid = folder_uid;
    project_uid = project_uid;
    name = "";
    created_by_username = "";
    created_at = 0;
    updated_at = 0;
  }

  unfoldable pub delete_folder : String → String → Option String → Bool → Exec W (Unit {0})
  unfolding deleted_folder
  delete_folder project_uid folder_uid if_match x_sync = when_ready s λ r. do
    revision ←
        checked_revision r.skip_etag_validation if_match
          (r.folders.get_folder project_uid folder_uid)
    links ← change_err (λ _. internal) (read (r.links.list_links project_uid))
    guard (not (any_link_in folder_uid links)) folder_not_empty
    docs ← change_err (λ _. internal) (read (r.documents.list_documents project_uid))
    guard (not (any_document_in folder_uid docs)) folder_not_empty
    r.folders.delete_folder project_uid folder_uid revision
    send_sync x_sync (
        r.messages.send_indexer_message folder_subject (
          envelope deleted (uid folder_uid)
            (folder_indexing_config (deleted_folder project_uid folder_uid))))
