-- ===== src/Service/Projects/Create.antt =====
-- CreateProject.
use lfx_v2_project_service.Prelude.{Bool, not, none, some, List, [], ◌∷◌, if◌then◌else◌}
use lfx_v2_project_service.Exec.{Exec, pure, read, guard, change_err, ◌>>=◌, ◌>>◌}
use lfx_v2_project_service.Domain.Error.{
  Error, project_slug_exists, internal, is_project_slug_exists,
}
use lfx_v2_project_service.Domain.Model.{ProjectBase, ProjectSettings}
use lfx_v2_project_service.Domain.Message.{
  created, envelope, base, settings, base_indexing_config, settings_indexing_config,
}
use lfx_v2_project_service.Service.Runtime.{Runtime}
use lfx_v2_project_service.Service.Core.{ProjectsService, Ready, when_ready, wait_group, run_sync}
use lfx_v2_project_service.Service.Api.{
  Users, ApiProjectBase, ApiProjectSettings, ProjectFull, CreateProjectPayload,
}
use lfx_v2_project_service.Service.Users.{build_fga_update_access_message}
use lfx_v2_project_service.Service.Converters.{
  convert_to_db_project_base, convert_to_db_project_settings, convert_to_project_full,
}
use lfx_v2_project_service.Service.Projects.Validate.{
  project_subject, settings_subject, validate_archived_requires_dissolution_date, check_parent,
  to_internal,
}
use lfx_v2_project_service.Service.Enrich.{enrich_all_role_fields, nth, nth_slice}

module _ (rt : Runtime) where
  -- The projsvc.ProjectBase literal.
  pub base_of_payload : CreateProjectPayload → ApiProjectBase
  base_of_payload p = record {
    uid = some rt.new_uid;
    slug = some p.slug;
    description = some p.description;
    name = some p.name;
    parent_uid = some p.parent_uid;
    public = p.public;
    is_foundation = p.is_foundation;
    stage = p.stage;
    category = p.category;
    legal_entity_type = p.legal_entity_type;
    legal_entity_name = p.legal_entity_name;
    legal_parent_uid = p.legal_parent_uid;
    funding = p.funding;
    funding_model = p.funding_model;
    entity_dissolution_date = p.entity_dissolution_date;
    entity_formation_document_url = p.entity_formation_document_url;
    formation_date = p.formation_date;
    autojoin_enabled = p.autojoin_enabled;
    charter_url = p.charter_url;
    logo_url = p.logo_url;
    website_url = p.website_url;
    repository_url = p.repository_url;
    created_at = none;
    updated_at = none;
  }

  -- The projsvc.ProjectSettings literal, with the role fields that were enriched in place:
  -- writers, auditors and meeting coordinators, then the three single roles.
  pub settings_of_payload : CreateProjectPayload → List Users → Users → ApiProjectSettings
  settings_of_payload p slices singles = record {
    uid = some rt.new_uid;
    mission_statement = p.mission_statement;
    announcement_date = p.announcement_date;
    writers = nth_slice slices 0;
    auditors = nth_slice slices 1;
    meeting_coordinators = nth_slice slices 2;
    executive_director = nth singles 0;
    program_manager = nth singles 1;
    opportunity_owner = nth singles 2;
    created_at = none;
    updated_at = none;
  }

  unfoldable pub create_error : Error → Error
  create_error e = if is_project_slug_exists e then project_slug_exists else internal

  module _ {W : Type 0} (s : ProjectsService W) where
    -- The three messages of a new project.
    unfoldable pub announce_created :
        Ready W → ProjectBase → ProjectSettings → Bool → Exec W (Unit {0})
    announce_created r p x sync = wait_group (
        r.messages.send_indexer_message project_subject
          (envelope created (base p) (base_indexing_config p)) sync
        ∷ r.messages.send_indexer_message settings_subject
            (envelope created (settings x) (settings_indexing_config x p.uid)) sync
        ∷ r.messages.send_access_message rt.update_access_subject
            (build_fga_update_access_message rt p x) sync
        ∷ [])

    unfoldable pub create_project : CreateProjectPayload → Exec W ProjectFull
    unfolding base_of_payload settings_of_payload create_error announce_created
    create_project p = when_ready s λ r. do
      read (λ w. validate_archived_requires_dissolution_date p.stage p.entity_dissolution_date)
      taken ← change_err to_internal (read (r.projects.project_slug_exists p.slug))
      guard (not taken) project_slug_exists
      check_parent rt r p.parent_uid
      enriched ← change_err to_internal (
          read (
            enrich_all_role_fields rt (some r.users)
              (p.writers ∷ p.auditors ∷ p.meeting_coordinators ∷ [])
              (p.executive_director ∷ p.program_manager ∷ p.opportunity_owner ∷ [])))
      project ←
          change_err to_internal (read (λ w. convert_to_db_project_base rt (base_of_payload p)))
      all_settings ← change_err to_internal (
          read (λ w.
            convert_to_db_project_settings rt (settings_of_payload p enriched.0 enriched.1) none))
      change_err create_error (r.projects.create_project project (some all_settings))
      announce_created r project all_settings (run_sync p.x_sync)
      pure (convert_to_project_full rt project (some all_settings))
