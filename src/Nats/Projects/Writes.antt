-- ===== src/Nats/Projects/Writes.antt =====
-- On the writing methods on projects of internal/infrastructure/nats/repository.go.
use lfx_v2_project_service.Prelude.Text.{sprintf_cancel}
use lfx_v2_project_service.Prelude.{
  ℕ, String, ◌≡◌, ◌≢◌, sym, ◌∙◌, Option, none, some, arith, eq_iff, ◌==◌, if◌then◌else◌, ℕ_discrete,
}
use lfx_v2_project_service.Exec.{ok, err, error_of}
use lfx_v2_project_service.Domain.Error.{Error}
use lfx_v2_project_service.Domain.Model.{ProjectBase, ProjectSettings}
use lfx_v2_project_service.Nats.Kv.{Entry, json, plain, done}
use lfx_v2_project_service.Nats.Laws.{entry, KeyValueLaws, Reply-done}
use lfx_v2_project_service.Nats.Repository.{NatsRepository, World}
use lfx_v2_project_service.Nats.Projects.{slug_key, create_project, update_project_base}

pub slug_key-injective : (a b : String) → slug_key a ≡ slug_key b → a ≡ b
slug_key-injective a b h = sprintf_cancel "slug/" a b h

module _ {B : Type 0 → Type 0} (s : NatsRepository B)
    (peek : B ProjectBase → String → Option (Entry ProjectBase))
    (peek_settings : B ProjectSettings → String → Option (Entry ProjectSettings))
    (laws : KeyValueLaws s.projects peek)
    (settings_laws : KeyValueLaws s.project_settings peek_settings) where
  -- The buckets hold the project under its UID, its UID under its slug, and its settings.
  pub record IsStored (base : ProjectBase) (settings : ProjectSettings) (w : World B) : Type 0 where
    pub base_revision : ℕ
    pub slug_revision : ℕ
    pub settings_revision : ℕ
    pub base_stored : peek w.projects base.uid ≡ some (entry (json base) base_revision)
    pub slug_stored :
        peek w.projects (slug_key base.slug) ≡ some (entry (plain base.uid) slug_revision)
    pub settings_stored :
        peek_settings w.project_settings settings.uid
        ≡ some (entry (json settings) settings_revision)

  -- After a successful CreateProject with settings, of a project whose slug key is not its UID,
  -- the buckets hold the project under its UID, its UID under its slug key, and its settings.
  pub create_project-IsStored :
      (base : ProjectBase) (settings : ProjectSettings) (w : World B)
      → slug_key base.slug ≢ base.uid
      → (create_project s base (some settings) w).0 ≡ ok tt
      → IsStored base settings (create_project s base (some settings) w).1
  unfolding create_project
  create_project-IsStored base settings w distinct h =
      let p1 = s.projects.put (slug_key base.slug) (plain base.uid) w.projects in
      let p2 = s.projects.put base.uid (json base) p1.1 in
      let p3 = s.project_settings.put settings.uid (json settings) w.project_settings in
      let (r1, e1) = Reply-done p1.0 (ground arith) in
      let (r2, e2) = Reply-done p2.0 (ground arith) in
      let (r3, e3) = Reply-done p3.0 (ground arith) in
      record {
        base_revision = r2;
        slug_revision = r1;
        settings_revision = r3;
        base_stored = ground (arith, laws.put_done base.uid (json base) p1.1 r2);
        slug_stored = ground (
          arith,
          laws.put_other base.uid (json base) p1.1 (slug_key base.slug),
          laws.put_done (slug_key base.slug) (plain base.uid) w.projects r1,
        );
        settings_stored =
            ground
              (arith, settings_laws.put_done settings.uid (json settings) w.project_settings r3);
      }

  module _ (base old : ProjectBase) (stored revision : ℕ) (w : World B)
      (found : s.projects.get w.projects base.uid ≡ done (entry (json old) stored)) where
    abbrev pub updated : World B
    updated = (update_project_base s base revision w).1

    -- UpdateProjectBase of a project that the store reads, with neither slug key equal to its
    -- UID, against another revision than the stored one, fails, and changes neither the record
    -- nor its revision.
    pub update_project_base-stale :
        slug_key old.slug ≢ base.uid
        → slug_key base.slug ≢ base.uid
        → stored ≢ revision
        → (e : Error) × ((update_project_base s base revision w).0 ≡ err e)
          × (peek updated.projects base.uid ≡ some (entry (json old) stored))
    unfolding update_project_base
    update_project_base-stale old_distinct new_distinct h =
        let d = s.projects.delete (slug_key old.slug) none w.projects in
        let m = s.projects.put (slug_key base.slug) (plain base.uid) d.1 in
        let kept = laws.delete_other (slug_key old.slug) none w.projects base.uid old_distinct in
        let kept_again =
          laws.put_other (slug_key base.slug) (plain base.uid) d.1 base.uid new_distinct in
        let start = laws.get_done w.projects base.uid (entry (json old) stored) found in
        let refused =
          laws.update_stale base.uid (json base) revision w.projects (entry (json old) stored) start
            h in
        let refused_moved =
          laws.update_stale base.uid (json base) revision m.1 (entry (json old) stored)
            (kept_again ∙ kept ∙ start) h in
        (error_of (update_project_base s base revision w).0, ground arith, ground arith)

    -- A successful UpdateProjectBase of a project that the store reads, with neither slug key
    -- equal to its UID, was given the stored revision, the record is replaced, and the slug keys
    -- follow it: a changed slug leaves the old key empty and the new key names the project, an
    -- unchanged slug keeps its key as it was.
    pub update_project_base-done :
        slug_key old.slug ≢ base.uid
        → slug_key base.slug ≢ base.uid
        → (update_project_base s base revision w).0 ≡ ok tt
        → (r : ℕ) × (stored ≡ revision)
          × (peek updated.projects base.uid ≡ some (entry (json base) r))
          × (old.slug ≢ base.slug → peek updated.projects (slug_key old.slug) ≡ none)
          × (old.slug ≢ base.slug
              → (n : ℕ) × (peek updated.projects (slug_key base.slug)
                  ≡ some (entry (plain base.uid) n)))
          × (old.slug ≡ base.slug
              → peek updated.projects (slug_key old.slug) ≡ peek w.projects (slug_key old.slug))
    unfolding update_project_base
    update_project_base-done old_distinct new_distinct h =
        let d = s.projects.delete (slug_key old.slug) none w.projects in
        let m = s.projects.put (slug_key base.slug) (plain base.uid) d.1 in
        let before = if old.slug == base.slug then w.projects else m.1 in
        let (r, final) =
          Reply-done (s.projects.update base.uid (json base) revision before).0 (ground arith) in
        let stored_r = laws.update_done base.uid (json base) revision before r final in
        let kept_old =
          laws.update_other base.uid (json base) revision before (slug_key old.slug)
            (λ e. old_distinct (sym e)) in
        let kept_new =
          laws.update_other base.uid (json base) revision before (slug_key base.slug)
            (λ e. new_distinct (sym e)) in
        (
          r,
          elim (ℕ_discrete stored revision) [
            | yes same ↦ same
            | no stale ↦
                let (e, refused, _) = update_project_base-stale old_distinct new_distinct stale in
                cc
          ],
          ground arith,
          λ moved.
              let still =
                laws.put_other (slug_key base.slug) (plain base.uid) d.1 (slug_key old.slug)
                  (λ e. moved (sym (slug_key-injective base.slug old.slug e))) in
              ground (
                arith,
                eq_iff old.slug base.slug,
                laws.delete_done (slug_key old.slug) none w.projects,
              ),
          λ moved.
              let (n, put) = Reply-done m.0 (ground (arith, eq_iff old.slug base.slug)) in
              (
                n,
                ground (
                  arith,
                  eq_iff old.slug base.slug,
                  laws.put_done (slug_key base.slug) (plain base.uid) d.1 n,
                ),
              ),
          λ same. ground (arith, eq_iff old.slug base.slug),
        )

    -- UpdateProjectBase of a project that the store reads, with neither slug key equal to its
    -- UID, that changes the slug and is given another revision than the stored one fails, and has
    -- deleted the old slug key all the same, when the bucket took that deletion.
    pub update_project_base-stale_slug :
        slug_key old.slug ≢ base.uid
        → slug_key base.slug ≢ base.uid
        → stored ≢ revision
        → old.slug ≢ base.slug
        → (s.projects.delete (slug_key old.slug) none w.projects).0 ≡ done tt
        → (e : Error) × ((update_project_base s base revision w).0 ≡ err e)
          × (peek updated.projects (slug_key old.slug) ≡ none)
    unfolding update_project_base
    update_project_base-stale_slug old_distinct new_distinct h moved gone =
        let d = s.projects.delete (slug_key old.slug) none w.projects in
        let m = s.projects.put (slug_key base.slug) (plain base.uid) d.1 in
        let erased = laws.delete_done (slug_key old.slug) none w.projects gone in
        let still =
          laws.put_other (slug_key base.slug) (plain base.uid) d.1 (slug_key old.slug)
            (λ e. moved (sym (slug_key-injective base.slug old.slug e))) in
        let last =
          laws.update_other base.uid (json base) revision m.1 (slug_key old.slug)
            (λ e. old_distinct (sym e)) in
        let kept = laws.delete_other (slug_key old.slug) none w.projects base.uid old_distinct in
        let kept_again =
          laws.put_other (slug_key base.slug) (plain base.uid) d.1 base.uid new_distinct in
        let start = laws.get_done w.projects base.uid (entry (json old) stored) found in
        let refused_moved =
          laws.update_stale base.uid (json base) revision m.1 (entry (json old) stored)
            (kept_again ∙ kept ∙ start) h in
        (
          error_of (update_project_base s base revision w).0,
          ground (arith, eq_iff old.slug base.slug),
          ground (arith, eq_iff old.slug base.slug),
        )
