-- ===== src/Service/Projects/Rejections.antt =====
-- On requests of internal/service/project_operations.go that are refused, and on ETags.
use lfx_v2_project_service.Prelude.{
  ℕ, ◌<◌, String, ◌≡◌, ◌≢◌, ◌⊎◌, true, Option, none, some, List, [], ◌∷◌, arith, eq_iff, ◌↔◌,
}
use lfx_v2_project_service.Prelude.Text.{
  trim_space, format_uint, parse_uint-format_uint, uint64_mod,
}
use lfx_v2_project_service.Exec.{ok, err}
use lfx_v2_project_service.Domain.Error.{
  validation_failed, archived_requires_dissolution_date, project_slug_exists,
  cannot_delete_non_crowdfunding_project,
}
use lfx_v2_project_service.Domain.Model.{ProjectBase}
use lfx_v2_project_service.Service.Runtime.{Runtime}
use lfx_v2_project_service.Service.Api.{
  CreateProjectPayload, UpdateProjectBasePayload, DeleteProjectPayload,
}
use lfx_v2_project_service.Service.Converters.{convert_to_service_project_base}
use lfx_v2_project_service.Service.Core.{ProjectsService, Ready, service_ready, if_match_revision}
use lfx_v2_project_service.Service.Projects.Validate.{
  validate_archived_requires_dissolution_date, is_crowdfunding_only,
}
use lfx_v2_project_service.Service.Projects.Get.{get_one_project_base}
use lfx_v2_project_service.Service.Projects.Create.{create_project}
use lfx_v2_project_service.Service.Projects.Update.{update_project_base}
use lfx_v2_project_service.Service.Projects.Delete.{delete_project}

-- No dissolution date: nil, empty or only white space.
abbrev pub IsMissing : Option String → Type 0
IsMissing none = Unit
IsMissing (some date) = trim_space date ≡ ""

-- The dissolution date is reported missing exactly when the submitted stage is "Archived" and the
-- date is absent or has only white space.
pub validate_archived_iff :
    (stage date : Option String)
    → (validate_archived_requires_dissolution_date stage date
        ≡ err archived_requires_dissolution_date)
      ↔ ((stage ≡ some "Archived") × IsMissing date)
unfolding validate_archived_requires_dissolution_date
validate_archived_iff none date = ground arith
validate_archived_iff (some stage) none = ground (arith, eq_iff stage "Archived")
validate_archived_iff (some stage) (some date) =
    ground (arith, eq_iff stage "Archived", eq_iff (trim_space date) "")

is_crowdfunding_only-eq :
    (models : List String) → is_crowdfunding_only models ≡ true → models ≡ "Crowdfunding" ∷ []
unfolding is_crowdfunding_only
is_crowdfunding_only-eq [] h = cc
is_crowdfunding_only-eq (m ∷ []) h = ground (arith, eq_iff m "Crowdfunding")
is_crowdfunding_only-eq (m ∷ n ∷ r) h = cc

module _ (rt : Runtime) {W : Type 0} (s : ProjectsService W) (r : Ready W)
    (ready : service_ready s ≡ some r) (w : W) where
  -- On a ready service, CreateProject with the stage "Archived" and no dissolution date is
  -- refused with that error, and the world is left as it was.
  pub create_project-archived :
      (p : CreateProjectPayload)
      → p.stage ≡ some "Archived"
      → IsMissing p.entity_dissolution_date
      → create_project rt s p w ≡ (err archived_requires_dissolution_date, w)
  unfolding create_project
  create_project-archived p h m =
      ground (arith, (validate_archived_iff p.stage p.entity_dissolution_date).1 (h, m))

  -- On a ready service, UpdateProjectBase of a stated UID with the stage "Archived" and no
  -- dissolution date is refused with that error, and the world is left as it was.
  pub update_project_base-archived :
      (p : UpdateProjectBasePayload) (key : String)
      → p.uid ≡ some key
      → p.stage ≡ some "Archived"
      → IsMissing p.entity_dissolution_date
      → update_project_base rt s p w ≡ (err archived_requires_dissolution_date, w)
  unfolding update_project_base
  update_project_base-archived p key u h m =
      ground (arith, (validate_archived_iff p.stage p.entity_dissolution_date).1 (h, m))

  -- On a ready service, DeleteProject of a project that both reads find with another funding than
  -- exactly "Crowdfunding" is refused, whatever the If-Match header and the configuration are:
  -- nothing is written and nothing is sent.
  pub delete_project-funding :
      (p : DeleteProjectPayload) (key : String) (project : ProjectBase) (revision : ℕ)
      → p.uid ≡ some key
      → r.projects.get_project_base key w ≡ ok project
      → r.projects.get_project_base_with_revision key w ≡ ok (project, revision)
      → project.funding_model ≢ "Crowdfunding" ∷ []
      → (delete_project rt s p w ≡ (err cannot_delete_non_crowdfunding_project, w))
        ⊎ (delete_project rt s p w ≡ (err validation_failed, w))
  unfolding delete_project if_match_revision
  delete_project-funding p key project revision u one two other =
      ground (arith, is_crowdfunding_only-eq project.funding_model)

  -- On a ready service, CreateProject with a slug that is taken is refused and the world is left as
  -- it was, when the stage and the dissolution date are valid.
  pub create_project-slug_taken :
      (p : CreateProjectPayload)
      → validate_archived_requires_dissolution_date p.stage p.entity_dissolution_date ≡ ok tt
      → r.projects.project_slug_exists p.slug w ≡ ok true
      → create_project rt s p w ≡ (err project_slug_exists, w)
  unfolding create_project
  create_project-slug_taken p v h = ground arith

  -- On a ready service, GetOneProjectBase of a readable project, whose revision fits in 64 bits,
  -- answers it with an ETag that, sent back as the If-Match header, names that revision.
  pub etag_round_trip :
      (key : String) (project : ProjectBase) (revision : ℕ)
      → r.projects.get_project_base_with_revision key w ≡ ok (project, revision)
      → revision < uint64_mod
      → (etag : String) × (get_one_project_base rt s (some key) w
          ≡ (ok (convert_to_service_project_base rt project, etag), w))
        × (if_match_revision (some etag) w ≡ (ok revision, w))
  unfolding get_one_project_base if_match_revision
  etag_round_trip key project revision h b =
      (format_uint revision, ground arith, ground (arith, parse_uint-format_uint revision b))
