-- ===== src/Service/Projects/Get.antt =====
-- GetProjects, GetOneProjectBase and GetOneProjectSettings.
use lfx_v2_project_service.Prelude.{String, Option, List, [], ◌∷◌}
use lfx_v2_project_service.Exec.{Exec, pure, read, guard, change_err, from_option, ◌>>=◌, ◌>>◌}
use lfx_v2_project_service.Domain.Error.{project_not_found, validation_failed}
use lfx_v2_project_service.Domain.Model.{ProjectBase, ProjectSettings}
use lfx_v2_project_service.Service.Runtime.{Runtime}
use lfx_v2_project_service.Service.Core.{ProjectsService, when_ready}
use lfx_v2_project_service.Service.Api.{ApiProjectBase, ApiProjectSettings, ProjectFull}
use lfx_v2_project_service.Service.Converters.{
  convert_to_service_project_base, convert_to_service_project_settings, convert_to_project_full,
}
use lfx_v2_project_service.Service.Projects.Validate.{to_internal, not_found_or_internal}
use lfx_v2_project_service.Prelude.Text.{format_uint}
use lfx_v2_project_service.Prelude.Assoc.{lookup, insert}

-- The maps by UID of GetProjects. Go ranges over them in no fixed order.
bases_by_uid : List (String × ProjectBase) → List ProjectBase → List (String × ProjectBase)
bases_by_uid m [] = m
bases_by_uid m (p ∷ ps) = bases_by_uid (insert p.uid p m) ps

settings_by_uid :
    List (String × ProjectSettings) → List ProjectSettings → List (String × ProjectSettings)
settings_by_uid m [] = m
settings_by_uid m (p ∷ ps) = settings_by_uid (insert p.uid p m) ps

module _ (rt : Runtime) where
  combine : List (String × ProjectSettings) → List (String × ProjectBase) → List ProjectFull
  combine settings_map [] = []
  combine settings_map ((k, p) ∷ ps) =
      convert_to_project_full rt p (lookup k settings_map) ∷ combine settings_map ps

  combined : List ProjectBase × List ProjectSettings → List ProjectFull
  unfolding bases_by_uid settings_by_uid combine
  combined (bases, all_settings) = combine (settings_by_uid [] all_settings) (bases_by_uid [] bases)

  module _ {W : Type 0} (s : ProjectsService W) where
    unfoldable pub get_projects : Exec W (List ProjectFull)
    unfolding combined
    get_projects =
        when_ready s λ r. do found ← read r.projects.list_all_projects; pure (combined found)

    unfoldable pub get_one_project_base : Option String → Exec W (ApiProjectBase × String)
    get_one_project_base project_uid = when_ready s λ r. do
      key ← from_option validation_failed project_uid
      found ←
          change_err not_found_or_internal (read (r.projects.get_project_base_with_revision key))
      pure (convert_to_service_project_base rt found.0, format_uint found.1)

    unfoldable pub get_one_project_settings : Option String → Exec W (ApiProjectSettings × String)
    get_one_project_settings project_uid = when_ready s λ r. do
      key ← from_option validation_failed project_uid
      found ← change_err to_internal (read (r.projects.project_exists key))
      guard found project_not_found
      stored ←
          change_err not_found_or_internal
            (read (r.projects.get_project_settings_with_revision key))
      pure (convert_to_service_project_settings rt stored.0, format_uint stored.1)
