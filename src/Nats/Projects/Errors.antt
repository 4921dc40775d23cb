-- ===== src/Nats/Projects/Errors.antt =====
-- On the errors of CreateProject and GetProjectSettings of internal/infrastructure/nats/repository.go.
use lfx_v2_project_service.Prelude.{String, ◌≢◌, inl, inr, Option, none, some, arith}
use lfx_v2_project_service.Exec.{err}
use lfx_v2_project_service.Domain.Error.{project_slug_exists, project_not_found}
use lfx_v2_project_service.Domain.Model.{ProjectBase, ProjectSettings}
use lfx_v2_project_service.Nats.Kv.{Entry, json, plain}
use lfx_v2_project_service.Nats.Laws.{KeyValueLaws, Reply-cases}
use lfx_v2_project_service.Nats.Repository.{NatsRepository, World}
use lfx_v2_project_service.Nats.Projects.{slug_key, create_project, get_project_settings}

module _ {B : Type 0 → Type 0} (s : NatsRepository B) (w : World B) where
  -- CreateProject never answers ErrProjectSlugExists: the slug key is written by a put, which
  -- does not fail because of a key that exists.
  pub create_project-ne-slug_exists :
      (peek : B ProjectBase → String → Option (Entry ProjectBase))
      → KeyValueLaws s.projects peek
      → (b : ProjectBase) (settings : Option ProjectSettings)
      → (create_project s b settings w).0 ≢ err project_slug_exists
  unfolding create_project
  create_project-ne-slug_exists peek laws b settings h =
      let p1 = s.projects.put (slug_key b.slug) (plain b.uid) w.projects in
      let p2 = s.projects.put b.uid (json b) p1.1 in
      elim (Reply-cases p1.0) [
        | inr (c, failure) ↦
            let never =
              laws.put_unconditional (slug_key b.slug) (plain b.uid) w.projects c failure in
            ground arith
        | inl (n, e1) ↦ elim (Reply-cases p2.0) [
          | inr (c, failure) ↦ ground arith
          | inl (r, e2) ↦ elim settings [ none ↦ ground arith | some x ↦ ground arith ]
        ]
      ]

  -- GetProjectSettings never answers ErrProjectNotFound, whatever the bucket replies.
  pub get_project_settings-ne-not_found :
      (uid : String) → get_project_settings s uid w ≢ err project_not_found
  unfolding get_project_settings
  get_project_settings-ne-not_found uid h =
      elim (Reply-cases (s.project_settings.get w.project_settings uid)) [
        | inr (c, failure) ↦ ground arith
        | inl (x, got) ↦ ground arith
      ]
