-- ===== src/Service/Projects/Delete.antt =====
-- DeleteProject.
use lfx_v2_project_service.Prelude.{ℕ, String, Bool, true, false, Option, [], ◌∷◌}
use lfx_v2_project_service.Exec.{Exec, pure, read, guard, change_err, from_option, ◌>>=◌, ◌>>◌}
use lfx_v2_project_service.Domain.Error.{validation_failed, cannot_delete_non_crowdfunding_project}
use lfx_v2_project_service.Domain.Model.{ProjectBase}
use lfx_v2_project_service.Domain.Message.{bare, delete_of}
use lfx_v2_project_service.Service.Runtime.{Runtime}
use lfx_v2_project_service.Service.Core.{
  ProjectsService, Ready, when_ready, if_match_revision, wait_group, run_sync,
}
use lfx_v2_project_service.Service.Api.{DeleteProjectPayload}
use lfx_v2_project_service.Service.Projects.Validate.{
  project_subject, settings_subject, is_crowdfunding_only, not_found_or_internal, delete_error,
}

module _ (rt : Runtime) {W : Type 0} (s : ProjectsService W) where
  -- The project and the revision that the deletion is checked against.
  unfoldable pub project_to_delete :
      Bool → String → Option String → Ready W → Exec W (ProjectBase × ℕ)
  project_to_delete false key if_match r = do
    revision ← if_match_revision if_match
    project ← change_err not_found_or_internal (read (r.projects.get_project_base key))
    pure (project, revision)
  project_to_delete true key if_match r =
      change_err not_found_or_internal (read (r.projects.get_project_base_with_revision key))

  announce_deleted : Ready W → String → Bool → Exec W (Unit {0})
  announce_deleted r key sync = wait_group (
      r.messages.send_indexer_message project_subject (bare key) sync
      ∷ r.messages.send_indexer_message settings_subject (bare key) sync
      ∷ r.messages.send_access_message rt.delete_access_subject
          (record { object_type = "project"; operation = "delete_access"; content = delete_of key })
          sync
      ∷ [])

  unfoldable pub delete_project : DeleteProjectPayload → Exec W (Unit {0})
  unfolding project_to_delete announce_deleted
  delete_project p = when_ready s λ r. do
    key ← from_option validation_failed p.uid
    found ← project_to_delete r.skip_etag_validation key p.if_match r
    guard (is_crowdfunding_only found.0.funding_model) cannot_delete_non_crowdfunding_project
    change_err delete_error (r.projects.delete_project key found.1)
    announce_deleted r key (run_sync p.x_sync)
