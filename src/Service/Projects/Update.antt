-- ===== src/Service/Projects/Update.antt =====
-- UpdateProjectBase and UpdateProjectSettings.
use lfx_v2_project_service.Prelude.{String, Bool, not, some, List, [], ◌∷◌, ◌==◌, if◌then◌else◌}
use lfx_v2_project_service.Exec.{
  Exec, map_err, pure, read, guard, change_err, from_option, ◌>>=◌, ◌>>◌,
}
use lfx_v2_project_service.Domain.Error.{project_not_found, project_slug_exists, validation_failed}
use lfx_v2_project_service.Domain.Model.{ProjectBase, ProjectSettings}
use lfx_v2_project_service.Domain.Message.{
  updated, envelope, base, settings, settings_updated, base_indexing_config,
  settings_indexing_config,
}
use lfx_v2_project_service.Service.Runtime.{Runtime}
use lfx_v2_project_service.Service.Core.{
  ProjectsService, Ready, when_ready, checked_revision, wait_group, run_sync,
}
use lfx_v2_project_service.Service.Api.{
  Users, ApiProjectBase, ApiProjectSettings, UpdateProjectBasePayload, UpdateProjectSettingsPayload,
}
use lfx_v2_project_service.Service.Users.{build_fga_update_access_message}
use lfx_v2_project_service.Service.Pointers.{print}
use lfx_v2_project_service.Service.Converters.{
  convert_to_service_project_base, convert_to_db_project_base, convert_to_db_project_settings,
}
use lfx_v2_project_service.Service.Projects.Validate.{
  project_subject, settings_subject, validate_archived_requires_dissolution_date, check_parent,
  to_internal, not_found_or_internal, update_error,
}
use lfx_v2_project_service.Service.Enrich.{enrich_all_role_fields, nth, nth_slice}

-- pkg/constants/nats.go
abbrev pub settings_updated_subject : String
settings_updated_subject = "lfx.projects-api.project_settings.updated"

module _ (rt : Runtime) where
  -- The projsvc.ProjectBase literal; the time of creation is the stored one.
  pub base_of_payload : UpdateProjectBasePayload → ProjectBase → ApiProjectBase
  base_of_payload p existing = record {
    uid = p.uid;
    slug = some p.slug;
    description = some p.description;
    name = some p.name;
    parent_uid = some p.parent_uid;
    public = p.public;
    is_foundation = p.is_foundation;
    stage = p.stage;
    category = p.category;
    legal_entity_type = p.legal_entity_type;
    legal_entity_name = p.legal_entity_name;
    legal_parent_uid = p.legal_parent_uid;
    funding = p.funding;
    funding_model = p.funding_model;
    entity_dissolution_date = p.entity_dissolution_date;
    entity_formation_document_url = p.entity_formation_document_url;
    formation_date = p.formation_date;
    autojoin_enabled = p.autojoin_enabled;
    charter_url = p.charter_url;
    logo_url = p.logo_url;
    website_url = p.website_url;
    repository_url = p.repository_url;
    created_at = print rt.format_rfc3339 existing.created_at;
    updated_at = some (rt.format_rfc3339 rt.now);
  }

  -- The projsvc.ProjectSettings literal, with the enriched role fields.
  pub settings_of_payload :
      UpdateProjectSettingsPayload → List Users → Users → ProjectSettings → ApiProjectSettings
  settings_of_payload p slices singles existing = record {
    uid = p.uid;
    mission_statement = p.mission_statement;
    announcement_date = p.announcement_date;
    writers = nth_slice slices 0;
    auditors = nth_slice slices 1;
    meeting_coordinators = nth_slice slices 2;
    executive_director = nth singles 0;
    program_manager = nth singles 1;
    opportunity_owner = nth singles 2;
    created_at = print rt.format_rfc3339 existing.created_at;
    updated_at = some (rt.format_rfc3339 rt.now);
  }

  module _ {W : Type 0} (s : ProjectsService W) where
    -- A changed slug must be free.
    unfoldable pub check_slug : Ready W → String → String → Exec W (Unit {0})
    check_slug r new_slug old_slug = if new_slug == old_slug then pure tt else do
      taken ← change_err to_internal (read (r.projects.project_slug_exists new_slug))
      guard (not taken) project_slug_exists

    unfoldable pub announce_base :
        Ready W → ProjectBase → ProjectSettings → Bool → Exec W (Unit {0})
    announce_base r p x sync = wait_group (
        r.messages.send_indexer_message project_subject
          (envelope updated (base p) (base_indexing_config p)) sync
        ∷ r.messages.send_access_message rt.update_access_subject
            (build_fga_update_access_message rt p x) sync
        ∷ [])

    unfoldable pub update_project_base : UpdateProjectBasePayload → Exec W ApiProjectBase
    unfolding base_of_payload check_slug announce_base
    update_project_base p = when_ready s λ r. do
      key ← from_option validation_failed p.uid
      read (λ w. validate_archived_requires_dissolution_date p.stage p.entity_dissolution_date)
      revision ←
          checked_revision r.skip_etag_validation p.if_match
            (λ w. map_err not_found_or_internal (r.projects.get_project_base_with_revision key w))
      existing ← change_err not_found_or_internal (read (r.projects.get_project_base key))
      check_slug r p.slug existing.slug
      check_parent rt r p.parent_uid
      project ←
          change_err to_internal
            (read (λ w. convert_to_db_project_base rt (base_of_payload p existing)))
      change_err update_error (r.projects.update_project_base project revision)
      stored ← change_err to_internal (read (r.projects.get_project_settings key))
      announce_base r project stored (run_sync p.x_sync)
      pure (convert_to_service_project_base rt project)

    unfoldable pub announce_settings :
        Ready W
        → String
        → ProjectBase
        → ProjectSettings
        → ProjectSettings
        → Bool
        → Exec W (Unit {0})
    announce_settings r key p old new sync = wait_group (
        r.messages.send_indexer_message settings_subject
          (envelope updated (settings new) (settings_indexing_config new p.uid)) sync
        ∷ r.messages.send_access_message rt.update_access_subject
            (build_fga_update_access_message rt p new) sync
        ∷ r.messages.send_project_event_message settings_updated_subject (
            settings_updated (record {
              project_uid = key;
              old_settings = old;
              new_settings = new;
              actor = record { username = rt.principal; name = ""; email = "" };
            }))
        ∷ [])

    unfoldable pub update_project_settings :
        UpdateProjectSettingsPayload → Exec W ApiProjectSettings
    unfolding settings_of_payload announce_settings
    update_project_settings p = when_ready s λ r. do
      key ← from_option validation_failed p.uid
      revision ←
          checked_revision r.skip_etag_validation p.if_match
            (λ w. map_err to_internal (r.projects.get_project_settings_with_revision key w))
      found ← change_err to_internal (read (r.projects.project_exists key))
      guard found project_not_found
      existing ← change_err not_found_or_internal (read (r.projects.get_project_settings key))
      enriched ← change_err to_internal (
          read (
            enrich_all_role_fields rt (some r.users)
              (p.writers ∷ p.auditors ∷ p.meeting_coordinators ∷ [])
              (p.executive_director ∷ p.program_manager ∷ p.opportunity_owner ∷ [])))
      let api_settings = settings_of_payload p enriched.0 enriched.1 existing
      new ←
          change_err to_internal
            (read (λ w. convert_to_db_project_settings rt api_settings (some existing)))
      change_err update_error (r.projects.update_project_settings new revision)
      project ← change_err to_internal (read (r.projects.get_project_base key))
      announce_settings r key project existing new (run_sync p.x_sync)
      pure api_settings
