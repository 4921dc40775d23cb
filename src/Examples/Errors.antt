-- ===== src/Examples/Errors.antt =====
-- The errors that are never answered, at buckets in memory: a creation over a stored project with the
-- same slug, and a project without settings.
use lfx_v2_project_service.Prelude.{◌≢◌, some}
use lfx_v2_project_service.Exec.{err}
use lfx_v2_project_service.Domain.Error.{project_slug_exists, project_not_found}
use lfx_v2_project_service.Nats.Memory.{peek, memory-laws}
use lfx_v2_project_service.Nats.Projects.{create_project, get_project_settings}
use lfx_v2_project_service.Nats.Projects.Errors.{
  create_project-ne-slug_exists, get_project_settings-ne-not_found,
}
use lfx_v2_project_service.Examples.Sample.{repository, world, project_at, zephyr_settings}

create_project-ne-slug_exists_example :
    (create_project repository (project_at "u2" "zephyr") (some zephyr_settings) world).0
    ≢ err project_slug_exists
create_project-ne-slug_exists_example =
    create_project-ne-slug_exists repository world peek memory-laws (project_at "u2" "zephyr")
      (some zephyr_settings)

get_project_settings-ne-not_found_example :
    get_project_settings repository "u2" world ≢ err project_not_found
get_project_settings-ne-not_found_example = get_project_settings-ne-not_found repository world "u2"
