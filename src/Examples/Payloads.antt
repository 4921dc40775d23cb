-- ===== src/Examples/Payloads.antt =====
-- Requests of the examples.
use lfx_v2_project_service.Prelude.{none, some, []}
use lfx_v2_project_service.Service.Api.{
  ApiUser, CreateProjectPayload, UpdateProjectBasePayload, UpdateProjectSettingsPayload,
  DeleteProjectPayload,
}

abbrev pub deletion : DeleteProjectPayload
deletion = record { x_sync = none; if_match = some "2"; uid = some "u1" }

abbrev pub archived_update : UpdateProjectBasePayload
archived_update = record {
  x_sync = none;
  if_match = some "2";
  uid = some "u1";
  slug = "zephyr";
  description = "";
  name = "Zephyr";
  parent_uid = "";
  public = none;
  is_foundation = none;
  stage = some "Archived";
  category = none;
  legal_entity_type = none;
  legal_entity_name = none;
  legal_parent_uid = none;
  funding = none;
  funding_model = [];
  entity_dissolution_date = some "  ";
  entity_formation_document_url = none;
  formation_date = none;
  autojoin_enabled = none;
  charter_url = none;
  logo_url = none;
  website_url = none;
  repository_url = none;
}

abbrev pub archived_creation : CreateProjectPayload
archived_creation = record {
  x_sync = none;
  slug = "zephyr";
  description = "";
  name = "Zephyr";
  parent_uid = "";
  public = none;
  is_foundation = none;
  stage = some "Archived";
  category = none;
  legal_entity_type = none;
  legal_entity_name = none;
  legal_parent_uid = none;
  funding = none;
  funding_model = [];
  entity_dissolution_date = none;
  entity_formation_document_url = none;
  formation_date = none;
  autojoin_enabled = none;
  charter_url = none;
  logo_url = none;
  website_url = none;
  repository_url = none;
  mission_statement = none;
  announcement_date = none;
  writers = [];
  meeting_coordinators = [];
  auditors = [];
  executive_director = none;
  program_manager = none;
  opportunity_owner = none;
}

-- A writer as a client would send him: a claimed username, which is not to be believed.
abbrev pub claimed : ApiUser
claimed = record {
  name = none;
  email = some " bob@x.org";
  username = some "root";
  avatar = none;
  invite = none;
}

abbrev pub no_change : UpdateProjectSettingsPayload
no_change = record {
  x_sync = none;
  if_match = some "1";
  uid = some "u1";
  mission_statement = some "An RTOS";
  announcement_date = none;
  writers = [];
  meeting_coordinators = [];
  auditors = [];
  executive_director = none;
  program_manager = none;
  opportunity_owner = none;
}
