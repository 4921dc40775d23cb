-- ===== src/Http/Refusals/Settings.antt =====
-- The errors of UpdateProjectSettings behind cmd/project-api/service_endpoint_project.go, by their
-- statuses.
use lfx_v2_project_service.Prelude.{refl, ℕ, String, Bool, some, [], ◌∷◌, arith}
use lfx_v2_project_service.Exec.{guard, Exec, read, from_option, change_err, map_err}
use lfx_v2_project_service.Domain.Model.{ProjectBase, ProjectSettings}
use lfx_v2_project_service.Domain.Error.{project_not_found, validation_failed}
use lfx_v2_project_service.Service.Core.{
  checked_revision, run_sync, ProjectsService, Ready, if_match_revision,
}
use lfx_v2_project_service.Service.Converters.{convert_to_db_project_settings}
use lfx_v2_project_service.Service.Runtime.{Runtime}
use lfx_v2_project_service.Service.Projects.Validate.{
  not_found_or_internal, to_internal, update_error,
}
use lfx_v2_project_service.Service.Projects.Update
use lfx_v2_project_service.Service.Api.{UpdateProjectSettingsPayload}
use lfx_v2_project_service.Http.Errors.{handle_error, create_response}
use lfx_v2_project_service.Http.Raised.{
  guard-Raises, OnError, Raises, bind-Raises, when_ready-Raises, change_err-Raises,
  wait_group-Raises, pure-Raises, leaf,
}
use lfx_v2_project_service.Http.Codes.{Has, write_codes}
use lfx_v2_project_service.Http.Refusals.{enriched}

module _ (rt : Runtime) {W : Type 0} (s : ProjectsService W) where
  abbrev settings_revision_of : Ready W → UpdateProjectSettingsPayload → String → Exec W ℕ
  settings_revision_of r p key =
      checked_revision r.skip_etag_validation p.if_match
        (λ w. map_err to_internal (r.projects.get_project_settings_with_revision key w))

  settings_revision-OnError :
      (r : Ready W) (p : UpdateProjectSettingsPayload) (key : String) (w : W)
      → OnError (Has write_codes) (settings_revision_of r p key w).0
  unfolding if_match_revision handle_error create_response
  settings_revision-OnError r p key w = ground arith

  settings-Raises :
      (r : Ready W) (key : String) (p : ProjectBase) (old new : ProjectSettings) (sync : Bool)
      → Raises (Has write_codes) (Update.announce_settings rt s r key p old new sync)
  unfolding Update.announce_settings handle_error create_response
  settings-Raises r key p old new sync = wait_group-Raises _ _ refl

  update_settings-Raises :
      (p : UpdateProjectSettingsPayload)
      → Raises (Has write_codes) (Update.update_project_settings rt s p)
  unfolding Update.update_project_settings handle_error create_response
  update_settings-Raises p = when_ready-Raises _ s _ refl (λ r.
      bind-Raises _ (from_option validation_failed p.uid) _
        (leaf _ (from_option validation_failed p.uid) (λ w. ground arith))
        (λ key.
          bind-Raises _ (settings_revision_of r p key) _
            (leaf _ (settings_revision_of r p key) (settings_revision-OnError r p key))
            (λ revision.
              bind-Raises _ (change_err to_internal (read (r.projects.project_exists key))) _
                (change_err-Raises _ to_internal _ (λ e. refl))
                (λ found.
                  bind-Raises _ (guard found project_not_found) _
                    (guard-Raises _ found project_not_found refl)
                    (λ _.
                      bind-Raises _
                        (change_err not_found_or_internal
                          (read (r.projects.get_project_settings key)))
                        _
                        (leaf _
                          (change_err not_found_or_internal
                            (read (r.projects.get_project_settings key)))
                          (λ w. ground arith))
                        (λ existing.
                          bind-Raises _
                            (enriched rt s r (p.writers ∷ p.auditors ∷ p.meeting_coordinators ∷ [])
                              (p.executive_director ∷ p.program_manager ∷ p.opportunity_owner ∷ []))
                            _ (change_err-Raises _ to_internal _ (λ e. refl))
                            (λ filled.
                              bind-Raises _
                                (change_err to_internal (
                                  read (λ w.
                                    convert_to_db_project_settings rt
                                      (Update.settings_of_payload rt p filled.0 filled.1 existing)
                                      (some existing))))
                                _ (change_err-Raises _ to_internal _ (λ e. refl))
                                (λ new.
                                  bind-Raises _
                                    (change_err update_error
                                      (r.projects.update_project_settings new revision))
                                    _ (change_err-Raises _ update_error _ (λ e. ground arith))
                                    (λ _.
                                      bind-Raises _
                                        (change_err to_internal
                                          (read (r.projects.get_project_base key)))
                                        _ (change_err-Raises _ to_internal _ (λ e. refl))
                                        (λ project.
                                          bind-Raises _
                                            (Update.announce_settings rt s r key project existing
                                              new (run_sync p.x_sync))
                                            _
                                            (settings-Raises r key project existing new
                                              (run_sync p.x_sync))
                                            (λ _. pure-Raises _ _)))))))))))

  pub update_settings-OnError :
      (p : UpdateProjectSettingsPayload) (w : W)
      → OnError (Has write_codes) (Update.update_project_settings rt s p w).0
  update_settings-OnError p w = (update_settings-Raises p).raised w
