-- ===== src/Http/Refusals.antt =====
-- The errors of the operations behind cmd/project-api/service_endpoint_project.go, by their statuses.
pub mod Creation
pub mod Base
pub mod Settings
use lfx_v2_project_service.Prelude.{
  not, refl, ℕ, String, Bool, Option, none, some, List, [], ◌∷◌, arith,
}
use lfx_v2_project_service.Exec.{guard, Exec, read, from_option, change_err, map_err}
use lfx_v2_project_service.Domain.Model.{ProjectBase, ProjectSettings}
use lfx_v2_project_service.Domain.Error.{project_not_found, project_slug_exists, validation_failed}
use lfx_v2_project_service.Service.Core.{
  checked_revision, run_sync, ProjectsService, Ready, if_match_revision, wait_all,
}
use lfx_v2_project_service.Service.Converters.{
  convert_to_db_project_settings, convert_to_db_project_base,
}
use lfx_v2_project_service.Service.Enrich.{enrich_all_role_fields}
use lfx_v2_project_service.Service.Runtime.{Runtime}
use lfx_v2_project_service.Service.Projects.Validate.{
  not_found_or_internal, to_internal, update_error, check_parent,
  validate_archived_requires_dissolution_date,
}
use lfx_v2_project_service.Service.Projects.Create
use lfx_v2_project_service.Service.Projects.Get
use lfx_v2_project_service.Service.Projects.Delete
use lfx_v2_project_service.Service.Projects.Update
use lfx_v2_project_service.Service.Api.{
  Users, UpdateProjectBasePayload, UpdateProjectSettingsPayload, DeleteProjectPayload,
  CreateProjectPayload,
}
use lfx_v2_project_service.Http.Errors.{handle_error, create_response}
use lfx_v2_project_service.Http.Raised.{
  guard-Raises, OnError, Raises, bind-Raises, when_ready-Raises, change_err-Raises,
  wait_group-Raises, pure-Raises, leaf,
}
use lfx_v2_project_service.Http.Codes.{Has, create_codes, read_codes, write_codes}

module _ (rt : Runtime) {W : Type 0} (s : ProjectsService W) where
  pub get_base-OnError :
      (key : String) (w : W)
      → OnError (Has read_codes) (Get.get_one_project_base rt s (some key) w).0
  unfolding Get.get_one_project_base handle_error create_response
  get_base-OnError key w = ground arith

  pub delete-OnError :
      (p : DeleteProjectPayload) (w : W)
      → OnError (Has write_codes) (Delete.delete_project rt s p w).0
  unfolding Delete.delete_project Delete.project_to_delete if_match_revision wait_all handle_error
      create_response
  delete-OnError p w = ground arith

  pub check_parent-OnError :
      (r : Ready W) (uid : String) (w : W) → OnError (Has create_codes) (check_parent rt r uid w).0
  unfolding check_parent handle_error create_response
  check_parent-OnError r uid w = ground arith

  pub archived-OnError :
      (stage date : Option String)
      → OnError (Has create_codes) (validate_archived_requires_dissolution_date stage date)
  unfolding validate_archived_requires_dissolution_date handle_error create_response
  archived-OnError stage date = ground arith

  abbrev pub enriched : Ready W → List Users → Users → Exec W (List Users × Users)
  enriched r slices singles =
      change_err to_internal (read (enrich_all_role_fields rt (some r.users) slices singles))

  pub get_settings-OnError :
      (key : String) (w : W)
      → OnError (Has read_codes) (Get.get_one_project_settings rt s (some key) w).0
  unfolding Get.get_one_project_settings handle_error create_response
  get_settings-OnError key w = ground arith
