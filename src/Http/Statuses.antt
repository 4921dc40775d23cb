-- ===== src/Http/Statuses.antt =====
-- The statuses with which the endpoints of cmd/project-api/service_endpoint_project.go refuse a request,
-- against those that api/project/v1/design/project.go declares.
use lfx_v2_project_service.Prelude.{String, some}
use lfx_v2_project_service.Service.Core.{ProjectsService}
use lfx_v2_project_service.Service.Runtime.{Runtime}
use lfx_v2_project_service.Service.Api.{
  UpdateProjectBasePayload, UpdateProjectSettingsPayload, DeleteProjectPayload,
  CreateProjectPayload,
}
use lfx_v2_project_service.Http.Projects.{
  create_project, get_one_project_base, get_one_project_settings, update_project_base,
  update_project_settings, delete_project,
}
use lfx_v2_project_service.Http.Codes.{
  IsDeclared, reply-IsDeclared, create_codes, read_codes, write_codes,
}
use lfx_v2_project_service.Http.Refusals.{get_base-OnError, get_settings-OnError, delete-OnError}
use lfx_v2_project_service.Http.Refusals.Creation.{create-OnError}
use lfx_v2_project_service.Http.Refusals.Base.{update_base-OnError}
use lfx_v2_project_service.Http.Refusals.Settings.{update_settings-OnError}

module _ (rt : Runtime) {W : Type 0} (s : ProjectsService W) where
  -- The six endpoints of projects and their settings refuse a request only with a status that the
  -- design of the API declares for them: the creation of a project with 400, 409, 500 or 503, a read
  -- of a project or of its settings under a stated UID with 404, 500 or 503, an update of either and
  -- the deletion of a project with 400, 404, 409, 500 or 503; none of the six answers with an error
  -- that has no status, or with a nil result and a nil error.
  pub project_endpoints-IsDeclared :
      (new : CreateProjectPayload) (base : UpdateProjectBasePayload)
      (settings : UpdateProjectSettingsPayload) (gone : DeleteProjectPayload) (key : String) (w : W)
      → IsDeclared create_codes (create_project rt s new w).0
        × IsDeclared read_codes (get_one_project_base rt s (some key) w).0
        × IsDeclared read_codes (get_one_project_settings rt s (some key) w).0
        × IsDeclared write_codes (update_project_base rt s base w).0
        × IsDeclared write_codes (update_project_settings rt s settings w).0
        × IsDeclared write_codes (delete_project rt s gone w).0
  unfolding create_project get_one_project_base get_one_project_settings update_project_base
      update_project_settings delete_project
  project_endpoints-IsDeclared new base settings gone key w = (
    reply-IsDeclared create_codes _ _ (create-OnError rt s new w),
    reply-IsDeclared read_codes _ _ (get_base-OnError rt s key w),
    reply-IsDeclared read_codes _ _ (get_settings-OnError rt s key w),
    reply-IsDeclared write_codes _ _ (update_base-OnError rt s base w),
    reply-IsDeclared write_codes _ _ (update_settings-OnError rt s settings w),
    reply-IsDeclared write_codes _ _ (delete-OnError rt s gone w),
  )
