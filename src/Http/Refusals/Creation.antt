-- ===== src/Http/Refusals/Creation.antt =====
-- The errors of CreateProject behind cmd/project-api/service_endpoint_project.go, by their statuses.
use lfx_v2_project_service.Prelude.{not, refl, Bool, none, some, [], ◌∷◌, arith}
use lfx_v2_project_service.Exec.{guard, read, change_err}
use lfx_v2_project_service.Domain.Model.{ProjectBase, ProjectSettings}
use lfx_v2_project_service.Domain.Error.{project_slug_exists}
use lfx_v2_project_service.Service.Core.{run_sync, ProjectsService, Ready}
use lfx_v2_project_service.Service.Converters.{
  convert_to_db_project_settings, convert_to_db_project_base,
}
use lfx_v2_project_service.Service.Runtime.{Runtime}
use lfx_v2_project_service.Service.Projects.Validate.{
  to_internal, check_parent, validate_archived_requires_dissolution_date,
}
use lfx_v2_project_service.Service.Projects.Create
use lfx_v2_project_service.Service.Api.{CreateProjectPayload}
use lfx_v2_project_service.Http.Errors.{handle_error, create_response}
use lfx_v2_project_service.Http.Raised.{
  guard-Raises, OnError, Raises, bind-Raises, when_ready-Raises, change_err-Raises,
  wait_group-Raises, pure-Raises, leaf,
}
use lfx_v2_project_service.Http.Codes.{Has, create_codes}
use lfx_v2_project_service.Http.Refusals.{check_parent-OnError, archived-OnError, enriched}

module _ (rt : Runtime) {W : Type 0} (s : ProjectsService W) where
  created-Raises :
      (r : Ready W) (p : ProjectBase) (x : ProjectSettings) (sync : Bool)
      → Raises (Has create_codes) (Create.announce_created rt s r p x sync)
  unfolding Create.announce_created handle_error create_response
  created-Raises r p x sync = wait_group-Raises _ _ refl

  create-Raises :
      (p : CreateProjectPayload) → Raises (Has create_codes) (Create.create_project rt s p)
  unfolding Create.create_project Create.create_error handle_error create_response
  create-Raises p = when_ready-Raises _ s _ refl (λ r.
      bind-Raises _
        (read (λ w. validate_archived_requires_dissolution_date p.stage p.entity_dissolution_date))
        _
        (leaf _
          (read
            (λ w. validate_archived_requires_dissolution_date p.stage p.entity_dissolution_date))
          (λ w. archived-OnError rt s p.stage p.entity_dissolution_date))
        (λ _.
          bind-Raises _ (change_err to_internal (read (r.projects.project_slug_exists p.slug))) _
            (change_err-Raises _ to_internal _ (λ e. refl))
            (λ taken.
              bind-Raises _ (guard (not taken) project_slug_exists) _
                (guard-Raises _ (not taken) project_slug_exists refl)
                (λ _.
                  bind-Raises _ (check_parent rt r p.parent_uid) _
                    (leaf _ (check_parent rt r p.parent_uid)
                      (check_parent-OnError rt s r p.parent_uid))
                    (λ _.
                      bind-Raises _
                        (enriched rt s r (p.writers ∷ p.auditors ∷ p.meeting_coordinators ∷ [])
                          (p.executive_director ∷ p.program_manager ∷ p.opportunity_owner ∷ []))
                        _ (change_err-Raises _ to_internal _ (λ e. refl))
                        (λ found.
                          bind-Raises _
                            (change_err to_internal (
                              read
                                (λ w. convert_to_db_project_base rt (Create.base_of_payload rt p))))
                            _ (change_err-Raises _ to_internal _ (λ e. refl))
                            (λ project.
                              bind-Raises _
                                (change_err to_internal (
                                  read (λ w.
                                    convert_to_db_project_settings rt
                                      (Create.settings_of_payload rt p found.0 found.1) none)))
                                _ (change_err-Raises _ to_internal _ (λ e. refl))
                                (λ x.
                                  bind-Raises _
                                    (change_err (Create.create_error rt)
                                      (r.projects.create_project project (some x)))
                                    _
                                    (change_err-Raises _ (Create.create_error rt) _
                                      (λ e. ground arith))
                                    (λ _.
                                      bind-Raises _
                                        (Create.announce_created rt s r project x
                                          (run_sync p.x_sync))
                                        _ (created-Raises r project x (run_sync p.x_sync))
                                        (λ _. pure-Raises _ _))))))))))

  pub create-OnError :
      (p : CreateProjectPayload) (w : W)
      → OnError (Has create_codes) (Create.create_project rt s p w).0
  create-OnError p w = (create-Raises p).raised w
