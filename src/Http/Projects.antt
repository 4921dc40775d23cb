-- ===== src/Http/Projects.antt =====
-- cmd/project-api/service_endpoint_project.go, with the probes and the authentication of
-- service_endpoint.go.
use lfx_v2_project_service.Prelude.{String, Option, none, some, List}
use lfx_v2_project_service.Exec.{Result, ok, err}
use lfx_v2_project_service.Service.Core.{ProjectsService, service_ready}
use lfx_v2_project_service.Service.Runtime.{Runtime}
use lfx_v2_project_service.Service.Api.{
  ApiProjectBase, ApiProjectSettings, ProjectFull, CreateProjectPayload, UpdateProjectBasePayload,
  UpdateProjectSettingsPayload, DeleteProjectPayload,
}
use lfx_v2_project_service.Service.Projects.Get
use lfx_v2_project_service.Service.Projects.Create
use lfx_v2_project_service.Service.Projects.Update
use lfx_v2_project_service.Service.Projects.Delete
use lfx_v2_project_service.Http.Errors.{
  Reply, success, failure, failed, other_error, reply, endpoint, create_response,
}

module _ (rt : Runtime) {W : Type 0} (s : ProjectsService W) where
  unfoldable pub get_projects : W → Reply (List ProjectFull) × W
  unfolding reply
  get_projects = endpoint (λ projects. projects) (Get.get_projects rt s)

  unfoldable pub create_project : CreateProjectPayload → W → Reply ProjectFull × W
  unfolding reply
  create_project p = endpoint (λ project. project) (Create.create_project rt s p)

  -- The payloads of the two reads have the UID only.
  unfoldable pub get_one_project_base : Option String → W → Reply (ApiProjectBase × String) × W
  unfolding reply
  get_one_project_base uid = endpoint (λ found. found) (Get.get_one_project_base rt s uid)

  unfoldable pub get_one_project_settings :
      Option String → W → Reply (ApiProjectSettings × String) × W
  unfolding reply
  get_one_project_settings uid = endpoint (λ found. found) (Get.get_one_project_settings rt s uid)

  unfoldable pub update_project_base : UpdateProjectBasePayload → W → Reply ApiProjectBase × W
  unfolding reply
  update_project_base p = endpoint (λ project. project) (Update.update_project_base rt s p)

  unfoldable pub update_project_settings :
      UpdateProjectSettingsPayload → W → Reply ApiProjectSettings × W
  unfolding reply
  update_project_settings p = endpoint (λ project. project) (Update.update_project_settings rt s p)

  unfoldable pub delete_project : DeleteProjectPayload → W → Reply (Unit {0}) × W
  unfolding reply
  delete_project p = endpoint (λ done. done) (Delete.delete_project rt s p)

  unfoldable pub readyz : Reply String
  unfolding create_response service_ready
  readyz = elim (service_ready s) [
    | none ↦ failed (create_response 503 "service unavailable")
    | some r ↦ success "OK\n"
  ]

  abbrev principal_of : Result String → Reply String
  principal_of (ok principal) = success principal
  principal_of (err e) = failure (other_error e)

  -- The principal that JWTAuth puts into the context; `parse_principal` is Auth.ParsePrincipal.
  unfoldable pub jwt_auth :
      (parse_principal : String → Result String) → (bearer_token : String) → Reply String
  unfolding create_response service_ready
  jwt_auth parse_principal bearer_token = elim (service_ready s) [
    | none ↦ failed (create_response 503 "service unavailable")
    | some r ↦ principal_of (parse_principal bearer_token)
  ]

-- Livez
unfoldable pub livez : Reply String
livez = success "OK\n"
