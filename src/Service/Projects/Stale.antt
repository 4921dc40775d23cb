-- ===== src/Service/Projects/Stale.antt =====
-- On DeleteProject of internal/service/project_operations.go with the ETag of another revision, over
-- the NATS repository.
use lfx_v2_project_service.Prelude.{
  ℕ, String, ◌≡◌, ◌≢◌, refl, ◌⊎◌, inl, inr, false, Option, some, arith, Bool-cases,
}
use lfx_v2_project_service.Prelude.Text.{parse_uint}
use lfx_v2_project_service.Exec.{ok, err, error_of}
use lfx_v2_project_service.Domain.Error.{Error}
use lfx_v2_project_service.Domain.Model.{ProjectBase, ProjectSettings}
use lfx_v2_project_service.Domain.Repository.{MessageBuilder, UserReader}
use lfx_v2_project_service.Nats.Kv.{Entry, json, done}
use lfx_v2_project_service.Nats.Laws.{entry, KeyValueLaws}
use lfx_v2_project_service.Nats.Repository.{NatsRepository, World}
use lfx_v2_project_service.Nats.Projects.{slug_key, get_project_base}
use lfx_v2_project_service.Nats.Projects.Deletion.{delete_project-stale, delete_project-outbox}
use lfx_v2_project_service.Service.Api.{DeleteProjectPayload}
use lfx_v2_project_service.Service.Runtime.{Runtime}
use lfx_v2_project_service.Service.Core.{ProjectsService, Ready, service_ready, if_match_revision}
use lfx_v2_project_service.Service.Wiring.{wired, wired_parts, wired-ready}
use lfx_v2_project_service.Service.Projects.Validate.{is_crowdfunding_only}
use lfx_v2_project_service.Service.Projects.Delete.{delete_project, project_to_delete}

module _ (rt : Runtime) {W : Type 0} (s : ProjectsService W) (r : Ready W)
    (ready : service_ready s ≡ some r) (w : W) where
  -- When the repository fails, the request fails with the world that the repository left.
  delete_project-failed :
      (p : DeleteProjectPayload) (key etag : String) (project : ProjectBase) (revision : ℕ)
      (e : Error)
      → r.skip_etag_validation ≡ false
      → p.uid ≡ some key
      → p.if_match ≡ some etag
      → parse_uint etag ≡ some revision
      → r.projects.get_project_base key w ≡ ok project
      → (r.projects.delete_project key revision w).0 ≡ err e
      → ((f : Error) × (delete_project rt s p w
            ≡ (err f, (r.projects.delete_project key revision w).1)))
        ⊎ ((f : Error) × (delete_project rt s p w ≡ (err f, w)))
  unfolding delete_project project_to_delete if_match_revision
  delete_project-failed p key etag project revision e checked u given parsed found failed =
      elim (Bool-cases (is_crowdfunding_only project.funding_model)) [
        | inl fine ↦ inl (error_of (delete_project rt s p w).0, ground arith)
        | inr refused ↦ inr (error_of (delete_project rt s p w).0, ground arith)
      ]

module _ {B : Type 0 → Type 0} (sha256_hex : String → String) (s : NatsRepository B)
    (messages : MessageBuilder (World B)) (users : UserReader (World B))
    (peek : B ProjectBase → String → Option (Entry ProjectBase))
    (peek_settings : B ProjectSettings → String → Option (Entry ProjectSettings))
    (laws : KeyValueLaws s.projects peek)
    (settings_laws : KeyValueLaws s.project_settings peek_settings) (rt : Runtime)
    (w : World B) where
  -- With the ETag validation on, DeleteProject over the NATS repository of a project that the
  -- store reads and whose slug key is not its UID, with an If-Match header that names another
  -- revision than the stored one and than 0 fails, changes neither projects nor settings, and sends
  -- nothing.
  pub delete_project-stale_etag :
      (p : DeleteProjectPayload) (key etag : String) (project : ProjectBase) (stored revision : ℕ)
      → p.uid ≡ some key
      → p.if_match ≡ some etag
      → parse_uint etag ≡ some revision
      → s.projects.get w.projects key ≡ done (entry (json project) stored)
      → slug_key project.slug ≢ key
      → revision ≢ 0
      → stored ≢ revision
      → (e : Error) × (after : World B) × (delete_project rt
            (wired sha256_hex s messages users false)
            p
            w
          ≡ (err e, after))
        × ((j : String) → peek after.projects j ≡ peek w.projects j)
        × (after.project_settings ≡ w.project_settings)
        × (after.outbox ≡ w.outbox)
  delete_project-stale_etag p key etag project stored revision u given parsed found distinct nonzero
        stale =
      let (e, failed, kept, settings_kept) =
        delete_project-stale s peek peek_settings laws settings_laws project key stored revision w
          found distinct nonzero stale in
      let quiet =
        delete_project-outbox s peek peek_settings laws settings_laws project key stored revision w
          found distinct in
      let read_back : get_project_base s key w ≡ ok project =
        unfold get_project_base in ground arith in
      elim (delete_project-failed rt (wired sha256_hex s messages users false)
        (wired_parts sha256_hex s messages users false)
        (wired-ready sha256_hex s messages users false) w p key etag project revision e refl u given
        parsed read_back failed) [
          | inl (f, result) ↦ (f, _, result, kept, settings_kept, quiet)
          | inr (f, result) ↦ (f, w, result, λ j. refl, refl, refl)
        ]
