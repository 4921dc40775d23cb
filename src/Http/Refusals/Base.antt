-- ===== src/Http/Refusals/Base.antt =====
-- The errors of UpdateProjectBase behind cmd/project-api/service_endpoint_project.go, by their statuses.
use lfx_v2_project_service.Prelude.{refl, ℕ, String, Bool, arith}
use lfx_v2_project_service.Exec.{Exec, read, from_option, change_err, map_err}
use lfx_v2_project_service.Domain.Model.{ProjectBase, ProjectSettings}
use lfx_v2_project_service.Domain.Error.{validation_failed}
use lfx_v2_project_service.Service.Core.{
  checked_revision, run_sync, ProjectsService, Ready, if_match_revision,
}
use lfx_v2_project_service.Service.Converters.{convert_to_db_project_base}
use lfx_v2_project_service.Service.Runtime.{Runtime}
use lfx_v2_project_service.Service.Projects.Validate.{
  not_found_or_internal, to_internal, update_error, check_parent,
  validate_archived_requires_dissolution_date,
}
use lfx_v2_project_service.Service.Projects.Update
use lfx_v2_project_service.Service.Api.{UpdateProjectBasePayload}
use lfx_v2_project_service.Http.Errors.{handle_error, create_response}
use lfx_v2_project_service.Http.Raised.{
  OnError, Raises, bind-Raises, when_ready-Raises, change_err-Raises, wait_group-Raises,
  pure-Raises, leaf,
}
use lfx_v2_project_service.Http.Codes.{Has, write_codes}
use lfx_v2_project_service.Http.Refusals.{check_parent-OnError, archived-OnError}

module _ (rt : Runtime) {W : Type 0} (s : ProjectsService W) where
  check_slug-OnError :
      (r : Ready W) (new_slug old_slug : String) (w : W)
      → OnError (Has write_codes) (Update.check_slug rt s r new_slug old_slug w).0
  unfolding Update.check_slug handle_error create_response
  check_slug-OnError r new_slug old_slug w = ground arith

  abbrev revision_of : Ready W → UpdateProjectBasePayload → String → Exec W ℕ
  revision_of r p key =
      checked_revision r.skip_etag_validation p.if_match
        (λ w. map_err not_found_or_internal (r.projects.get_project_base_with_revision key w))

  revision-OnError :
      (r : Ready W) (p : UpdateProjectBasePayload) (key : String) (w : W)
      → OnError (Has write_codes) (revision_of r p key w).0
  unfolding if_match_revision handle_error create_response
  revision-OnError r p key w = ground arith

  announced :
      (r : Ready W) (p : ProjectBase) (x : ProjectSettings) (sync : Bool)
      → Raises (Has write_codes) (Update.announce_base rt s r p x sync)
  unfolding Update.announce_base handle_error create_response
  announced r p x sync = wait_group-Raises _ _ refl

  update_base-Raises :
      (p : UpdateProjectBasePayload) → Raises (Has write_codes) (Update.update_project_base rt s p)
  unfolding Update.update_project_base Update.announce_base handle_error create_response
  update_base-Raises p = when_ready-Raises _ s _ refl (λ r.
      bind-Raises _ (from_option validation_failed p.uid) _
        (leaf _ (from_option validation_failed p.uid) (λ w. ground arith))
        (λ key.
          bind-Raises _
            (read
              (λ w. validate_archived_requires_dissolution_date p.stage p.entity_dissolution_date))
            _
            (leaf _
              (read (λ w.
                validate_archived_requires_dissolution_date p.stage p.entity_dissolution_date))
              (λ w. ground (arith, archived-OnError rt s p.stage p.entity_dissolution_date)))
            (λ _.
              bind-Raises _ (revision_of r p key) _
                (leaf _ (revision_of r p key) (λ w. revision-OnError r p key w))
                (λ revision.
                  bind-Raises _
                    (change_err not_found_or_internal (read (r.projects.get_project_base key))) _
                    (leaf _
                      (change_err not_found_or_internal (read (r.projects.get_project_base key)))
                      (λ w. ground arith))
                    (λ existing.
                      bind-Raises _ (Update.check_slug rt s r p.slug existing.slug) _
                        (leaf _ (Update.check_slug rt s r p.slug existing.slug)
                          (check_slug-OnError r p.slug existing.slug))
                        (λ _.
                          bind-Raises _ (check_parent rt r p.parent_uid) _
                            (leaf _ (check_parent rt r p.parent_uid)
                              (λ w. ground (arith, check_parent-OnError rt s r p.parent_uid w)))
                            (λ _.
                              bind-Raises _
                                (change_err to_internal (
                                  read (λ w.
                                    convert_to_db_project_base rt
                                      (Update.base_of_payload rt p existing))))
                                _ (change_err-Raises _ to_internal _ (λ e. refl))
                                (λ project.
                                  bind-Raises _
                                    (change_err update_error
                                      (r.projects.update_project_base project revision))
                                    _ (change_err-Raises _ update_error _ (λ e. ground arith))
                                    (λ _.
                                      bind-Raises _
                                        (change_err to_internal
                                          (read (r.projects.get_project_settings key)))
                                        _ (change_err-Raises _ to_internal _ (λ e. refl))
                                        (λ stored.
                                          bind-Raises _
                                            (Update.announce_base rt s r project stored
                                              (run_sync p.x_sync))
                                            _ (announced r project stored (run_sync p.x_sync))
                                            (λ _. pure-Raises _ _)))))))))))

  pub update_base-OnError :
      (p : UpdateProjectBasePayload) (w : W)
      → OnError (Has write_codes) (Update.update_project_base rt s p w).0
  update_base-OnError p w = (update_base-Raises p).raised w
