-- ===== src/Nats/Projects/Deletion.antt =====
-- On DeleteProject of internal/infrastructure/nats/repository.go.
use lfx_v2_project_service.Prelude.{
  ℕ, String, ◌≡◌, ◌≢◌, ◌⊎◌, inl, inr, Option, none, some, arith, eq_iff, ℕ_discrete,
}
use lfx_v2_project_service.Exec.{ok, err, error_of}
use lfx_v2_project_service.Domain.Error.{Error}
use lfx_v2_project_service.Domain.Model.{ProjectBase, ProjectSettings}
use lfx_v2_project_service.Nats.Kv.{Entry, json, done}
use lfx_v2_project_service.Nats.Laws.{entry, KeyValueLaws}
use lfx_v2_project_service.Nats.Repository.{NatsRepository, World}
use lfx_v2_project_service.Nats.Projects.{slug_key, delete_project}

module _ {B : Type 0 → Type 0} (s : NatsRepository B)
    (peek : B ProjectBase → String → Option (Entry ProjectBase))
    (peek_settings : B ProjectSettings → String → Option (Entry ProjectSettings))
    (laws : KeyValueLaws s.projects peek)
    (settings_laws : KeyValueLaws s.project_settings peek_settings) where
  module _ (project : ProjectBase) (project_uid : String) (stored revision : ℕ) (w : World B)
      (found : s.projects.get w.projects project_uid ≡ done (entry (json project) stored))
      (distinct : slug_key project.slug ≢ project_uid) where
    abbrev pub deleted : World B
    deleted = (delete_project s project_uid revision w).1

    -- DeleteProject of a project that the store reads and whose slug key is not its UID, against
    -- another revision than the stored one and than 0, fails, and changes neither the bucket of projects
    -- under any key nor the settings.
    pub delete_project-stale :
        revision ≢ 0
        → stored ≢ revision
        → (e : Error) × ((delete_project s project_uid revision w).0 ≡ err e)
          × ((j : String) → peek deleted.projects j ≡ peek w.projects j)
          × (deleted.project_settings ≡ w.project_settings)
    unfolding delete_project
    delete_project-stale nonzero h =
        let a = s.projects.delete project_uid (some revision) w.projects in
        let b = s.projects.delete (slug_key project.slug) none a.1 in
        let c = s.project_settings.delete project_uid none w.project_settings in
        let start = laws.get_done w.projects project_uid (entry (json project) stored) found in
        let refused =
          laws.delete_stale project_uid revision w.projects (entry (json project) stored) nonzero
            start h in
        (
          error_of (delete_project s project_uid revision w).0,
          ground arith,
          λ j. ground (
            arith,
            laws.delete_other project_uid (some revision) w.projects j,
            eq_iff project_uid j,
          ),
          ground arith,
        )

    -- A successful DeleteProject of a project that the store reads and whose slug key is not its
    -- UID was given the stored revision or 0, and the record, its slug key and its settings are gone.
    pub delete_project-done :
        (delete_project s project_uid revision w).0 ≡ ok tt
        → ((stored ≡ revision) ⊎ (revision ≡ 0))
          × (peek deleted.projects project_uid ≡ none)
          × (peek deleted.projects (slug_key project.slug) ≡ none)
          × (peek_settings deleted.project_settings project_uid ≡ none)
    unfolding delete_project
    delete_project-done h =
        let a = s.projects.delete project_uid (some revision) w.projects in
        let b = s.projects.delete (slug_key project.slug) none a.1 in
        let c = s.project_settings.delete project_uid none w.project_settings in
        (
          elim (ℕ_discrete stored revision) [
            | yes same ↦ inl same
            | no stale ↦ elim (ℕ_discrete revision 0) [
              | yes unconditional ↦ inr unconditional
              | no nonzero ↦
                  let (e, refused, _, _) = delete_project-stale nonzero stale in
                  absurd (cc (refused, h))
            ]
          ],
          ground (
            arith,
            laws.delete_done project_uid (some revision) w.projects,
            laws.delete_other (slug_key project.slug) none a.1 project_uid distinct,
          ),
          ground (arith, laws.delete_done (slug_key project.slug) none a.1),
          ground (arith, settings_laws.delete_done project_uid none w.project_settings),
        )

    pub delete_project-other :
        (j : String)
        → j ≢ project_uid
        → j ≢ slug_key project.slug
        → (peek deleted.projects j ≡ peek w.projects j)
          × (peek_settings deleted.project_settings j ≡ peek_settings w.project_settings j)
    unfolding delete_project
    delete_project-other j n m =
        let a = s.projects.delete project_uid (some revision) w.projects in
        let b = s.projects.delete (slug_key project.slug) none a.1 in
        let c = s.project_settings.delete project_uid none w.project_settings in
        (
          ground (
            arith,
            laws.delete_other project_uid (some revision) w.projects j,
            laws.delete_other (slug_key project.slug) none a.1 j,
          ),
          ground (arith, settings_laws.delete_other project_uid none w.project_settings j),
        )

    -- Nothing is sent.
    pub delete_project-outbox : deleted.outbox ≡ w.outbox
    unfolding delete_project
    delete_project-outbox = ground arith
