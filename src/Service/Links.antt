-- ===== src/Service/Links.antt =====
-- internal/service/link_operations.go
use lfx_v2_project_service.Prelude.{String, Bool, not, Option, none, ◌==◌, if◌then◌else◌}
use lfx_v2_project_service.Exec.{Exec, pure, read, guard, change_err, ◌>>=◌, ◌>>◌}
use lfx_v2_project_service.Domain.Error.{
  Error, project_not_found, internal, validation_failed, link_not_found, is_link_not_found,
}
use lfx_v2_project_service.Domain.Model.{ProjectLink}
use lfx_v2_project_service.Domain.Message.{
  created, deleted, envelope, link, uid, link_created, link_indexing_config,
}
use lfx_v2_project_service.Service.Runtime.{Runtime}
use lfx_v2_project_service.Service.Core.{
  ProjectsService, when_ready, checked_revision, background, send_sync,
}
use lfx_v2_project_service.Prelude.Text.{format_uint}
use lfx_v2_project_service.Service.Folders.{existing_folder, stated_folder, folder_ref}

-- pkg/constants/nats.go
abbrev pub link_subject : String
link_subject = "lfx.index.project_link"

abbrev pub link_created_subject : String
link_created_subject = "lfx.projects-api.project_link.created"

abbrev link_not_found_or_internal : Error → Error
link_not_found_or_internal e = if is_link_not_found e then link_not_found else internal

module _ (rt : Runtime) {W : Type 0} (s : ProjectsService W) where
  new_link : String → String → String → String → Option String → ProjectLink
  new_link project_uid name url description folder_uid = record {
    uid = rt.new_uid;
    project_uid = project_uid;
    folder_uid = folder_uid;
    name = name;
    url = url;
    description = description;
    created_by_username = rt.principal;
    created_at = rt.now;
    updated_at = rt.now;
  }

  unfoldable pub create_link :
      String → (name url description : String) → Option String → Bool → Exec W ProjectLink
  unfolding new_link
  create_link project_uid name url description folder_uid x_sync = when_ready s λ r. do
    guard (not (name == "")) validation_failed
    guard (rt.is_web_url url) validation_failed
    found ← change_err (λ _. internal) (read (r.projects.project_exists project_uid))
    guard found project_not_found
    existing_folder r project_uid (stated_folder folder_uid)
    let l = new_link project_uid name url description (stated_folder folder_uid)
    r.links.create_link l
    send_sync x_sync (
        r.messages.send_indexer_message link_subject
          (envelope created (link l) (link_indexing_config l)))
    background (
        r.messages.send_project_event_message link_created_subject (
          link_created (record {
            project_uid = l.project_uid;
            link_uid = l.uid;
            name = l.name;
            url = l.url;
            folder_uid = folder_ref l.folder_uid;
            created_by = l.created_by_username;
          })))
    pure l

  unfoldable pub get_link : String → String → Exec W (ProjectLink × String)
  get_link project_uid link_uid = when_ready s λ r. do
    found ← change_err link_not_found_or_internal (read (r.links.get_link project_uid link_uid))
    pure (found.0, format_uint found.1)

  deleted_link : String → String → ProjectLink
  deleted_link project_uid link_uid = record {
    uid = link_uid;
    project_uid = project_uid;
    folder_uid = none;
    name = "";
    url = "";
    description = "";
    created_by_username = "";
    created_at = 0;
    updated_at = 0;
  }

  unfoldable pub delete_link : String → String → Option String → Bool → Exec W (Unit {0})
  unfolding deleted_link
  delete_link project_uid link_uid if_match x_sync = when_ready s λ r. do
    revision ←
        checked_revision r.skip_etag_validation if_match (r.links.get_link project_uid link_uid)
    r.links.delete_link project_uid link_uid revision
    send_sync x_sync (
        r.messages.send_indexer_message link_subject (
          envelope deleted (uid link_uid)
            (link_indexing_config (deleted_link project_uid link_uid))))
