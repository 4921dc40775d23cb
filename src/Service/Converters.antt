-- ===== src/Service/Converters.antt =====
-- internal/service/converters.go
pub mod RoundTrip
use lfx_v2_project_service.Prelude.{
  String, Bool, false, not, ◌&&◌, Option, none, some, List, [], ◌∷◌, ◌++◌, ◌==◌, if◌then◌else◌,
}
use lfx_v2_project_service.Prelude.Text.{sprintf, trim_space}
use lfx_v2_project_service.Exec.{Result, ok, err, bind}
use lfx_v2_project_service.Domain.Error.{time_parse}
use lfx_v2_project_service.Domain.Model.{Time, InviteInfo, UserInfo, ProjectBase, ProjectSettings}
use lfx_v2_project_service.Domain.Message.{AccessMessage, access_of}
use lfx_v2_project_service.Service.Api.{
  ApiInvite, ApiUser, Users, ApiProjectBase, ApiProjectSettings, ProjectFull,
}
use lfx_v2_project_service.Service.Runtime.{Runtime}
use lfx_v2_project_service.Service.Pointers.{
  non_empty, deref, deref_flag, print, parse_ptr, parse_or_now,
}
use lfx_v2_project_service.Service.Users.{
  convert_user_to_api, convert_users_to_api, user_ptr_to_api, convert_users_from_api,
  convert_user_from_api, user_ptr_from_api,
}

module _ (rt : Runtime) where
  unfoldable pub convert_to_service_project_base : ProjectBase → ApiProjectBase
  convert_to_service_project_base p = record {
    uid = some p.uid;
    slug = some p.slug;
    name = non_empty p.name;
    description = non_empty p.description;
    parent_uid = non_empty p.parent_uid;
    stage = non_empty p.stage;
    category = non_empty p.category;
    legal_entity_type = non_empty p.legal_entity_type;
    legal_entity_name = non_empty p.legal_entity_name;
    legal_parent_uid = non_empty p.legal_parent_uid;
    funding = non_empty p.funding;
    entity_formation_document_url = non_empty p.entity_formation_document_url;
    charter_url = non_empty p.charter_url;
    logo_url = non_empty p.logo_url;
    website_url = non_empty p.website_url;
    repository_url = non_empty p.repository_url;
    public = some p.public;
    is_foundation = some p.is_foundation;
    autojoin_enabled = some p.autojoin_enabled;
    funding_model = p.funding_model;
    entity_dissolution_date = print rt.format_date_only p.entity_dissolution_date;
    formation_date = print rt.format_date_only p.formation_date;
    created_at = print rt.format_rfc3339 p.created_at;
    updated_at = print rt.format_rfc3339 p.updated_at;
  }

  unfoldable pub convert_to_db_project_base : ApiProjectBase → Result ProjectBase
  convert_to_db_project_base p =
      bind (parse_ptr rt.parse_date_only p.entity_dissolution_date) λ entity_dissolution_date.
        bind (parse_ptr rt.parse_date_only p.formation_date) λ formation_date.
          bind (parse_or_now rt.parse_rfc3339 rt.now p.created_at) λ created_at.
            bind (parse_or_now rt.parse_rfc3339 rt.now p.updated_at) λ updated_at. ok (record {
              uid = deref p.uid;
              slug = deref p.slug;
              name = deref p.name;
              description = deref p.description;
              public = deref_flag p.public;
              is_foundation = deref_flag p.is_foundation;
              parent_uid = deref p.parent_uid;
              stage = deref p.stage;
              category = deref p.category;
              legal_entity_type = deref p.legal_entity_type;
              legal_entity_name = deref p.legal_entity_name;
              legal_parent_uid = deref p.legal_parent_uid;
              funding = deref p.funding;
              funding_model = p.funding_model;
              entity_dissolution_date = entity_dissolution_date;
              formation_date = formation_date;
              created_at = created_at;
              updated_at = updated_at;
              entity_formation_document_url = deref p.entity_formation_document_url;
              charter_url = deref p.charter_url;
              logo_url = deref p.logo_url;
              website_url = deref p.website_url;
              repository_url = deref p.repository_url;
              autojoin_enabled = deref_flag p.autojoin_enabled;
            })

  unfoldable pub convert_to_service_project_settings : ProjectSettings → ApiProjectSettings
  unfolding convert_users_to_api
  convert_to_service_project_settings s = record {
    uid = some s.uid;
    mission_statement = non_empty s.mission_statement;
    writers = convert_users_to_api rt s.writers;
    auditors = convert_users_to_api rt s.auditors;
    meeting_coordinators = convert_users_to_api rt s.meeting_coordinators;
    executive_director = user_ptr_to_api rt s.executive_director;
    program_manager = user_ptr_to_api rt s.program_manager;
    opportunity_owner = user_ptr_to_api rt s.opportunity_owner;
    announcement_date = print rt.format_date_only s.announcement_date;
    created_at = print rt.format_rfc3339 s.created_at;
    updated_at = print rt.format_rfc3339 s.updated_at;
  }

  abbrev stored_users : (ProjectSettings → List UserInfo) → Option ProjectSettings → List UserInfo
  stored_users field none = []
  stored_users field (some existing) = field existing

  unfoldable pub convert_to_db_project_settings :
      ApiProjectSettings → Option ProjectSettings → Result ProjectSettings
  unfolding convert_users_from_api convert_user_from_api
  convert_to_db_project_settings s existing =
      bind (parse_ptr rt.parse_date_only s.announcement_date) λ announcement_date.
        bind (parse_or_now rt.parse_rfc3339 rt.now s.created_at) λ created_at.
          bind (parse_or_now rt.parse_rfc3339 rt.now s.updated_at) λ updated_at. ok (record {
            uid = deref s.uid;
            mission_statement = deref s.mission_statement;
            announcement_date = announcement_date;
            auditors =
                convert_users_from_api rt (stored_users (λ x. x.auditors) existing) s.auditors;
            writers = convert_users_from_api rt (stored_users (λ x. x.writers) existing) s.writers;
            meeting_coordinators =
                convert_users_from_api rt (stored_users (λ x. x.meeting_coordinators) existing)
                  s.meeting_coordinators;
            executive_director = user_ptr_from_api rt s.executive_director;
            program_manager = user_ptr_from_api rt s.program_manager;
            opportunity_owner = user_ptr_from_api rt s.opportunity_owner;
            created_at = created_at;
            updated_at = updated_at;
          })

  base_to_full : ProjectBase → ProjectFull
  base_to_full base = record {
    uid = some base.uid;
    slug = some base.slug;
    public = some base.public;
    is_foundation = some base.is_foundation;
    autojoin_enabled = some base.autojoin_enabled;
    name = non_empty base.name;
    description = non_empty base.description;
    parent_uid = non_empty base.parent_uid;
    stage = non_empty base.stage;
    category = non_empty base.category;
    legal_entity_type = non_empty base.legal_entity_type;
    legal_entity_name = non_empty base.legal_entity_name;
    legal_parent_uid = non_empty base.legal_parent_uid;
    funding = non_empty base.funding;
    charter_url = non_empty base.charter_url;
    logo_url = non_empty base.logo_url;
    website_url = non_empty base.website_url;
    repository_url = non_empty base.repository_url;
    entity_formation_document_url = non_empty base.entity_formation_document_url;
    funding_model = base.funding_model;
    created_at = print rt.format_rfc3339 base.created_at;
    updated_at = print rt.format_rfc3339 base.updated_at;
    entity_dissolution_date = print rt.format_date_only base.entity_dissolution_date;
    formation_date = print rt.format_date_only base.formation_date;
    mission_statement = none;
    writers = [];
    auditors = [];
    meeting_coordinators = [];
    executive_director = none;
    program_manager = none;
    opportunity_owner = none;
    announcement_date = none;
  }

  unfoldable pub convert_to_project_full : ProjectBase → Option ProjectSettings → ProjectFull
  unfolding convert_users_to_api base_to_full
  convert_to_project_full base none = base_to_full base
  convert_to_project_full base (some s) = record (base_to_full base) {
    mission_statement = non_empty s.mission_statement;
    writers = convert_users_to_api rt s.writers;
    auditors = convert_users_to_api rt s.auditors;
    meeting_coordinators = convert_users_to_api rt s.meeting_coordinators;
    executive_director = user_ptr_to_api rt s.executive_director;
    program_manager = user_ptr_to_api rt s.program_manager;
    opportunity_owner = user_ptr_to_api rt s.opportunity_owner;
    announcement_date = print rt.format_date_only s.announcement_date;
  }
