-- ===== src/Examples/Endpoints.antt =====
-- The theorems about the HTTP endpoints, at the wired service over buckets in memory.
use lfx_v2_project_service.Prelude.{◌≡◌, refl, true, some, [], ◌∷◌, arith}
use lfx_v2_project_service.Http.Download.{DocumentDownloadBody}
use lfx_v2_project_service.Http.Download.Reading.{read_all, read_all-content}
use lfx_v2_project_service.Http.Projects.{
  create_project, get_one_project_base, get_one_project_settings, update_project_base,
  update_project_settings, delete_project,
}
use lfx_v2_project_service.Http.Codes.{IsDeclared, create_codes, read_codes, write_codes}
use lfx_v2_project_service.Http.Statuses.{project_endpoints-IsDeclared}
use lfx_v2_project_service.Examples.Payloads.{
  deletion, archived_update, archived_creation, no_change,
}
use lfx_v2_project_service.Examples.Sample.{runtime, service, world}

abbrev download : DocumentDownloadBody
download = record {
  content = 37 ∷ 80 ∷ 68 ∷ [];
  content_type = "application/pdf";
  file_name = "report.pdf";
  offset = 0;
}

read_all-content_example : read_all 4 2 download ≡ (37 ∷ 80 ∷ 68 ∷ [], true)
read_all-content_example = read_all-content 2 download (omega arith) refl

project_endpoints-IsDeclared_example :
    IsDeclared create_codes (create_project runtime service archived_creation world).0
    × IsDeclared read_codes (get_one_project_base runtime service (some "u1") world).0
    × IsDeclared read_codes (get_one_project_settings runtime service (some "u1") world).0
    × IsDeclared write_codes (update_project_base runtime service archived_update world).0
    × IsDeclared write_codes (update_project_settings runtime service no_change world).0
    × IsDeclared write_codes (delete_project runtime service deletion world).0
project_endpoints-IsDeclared_example =
    project_endpoints-IsDeclared runtime service archived_creation archived_update no_change
      deletion "u1" world
