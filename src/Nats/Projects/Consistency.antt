-- ===== src/Nats/Projects/Consistency.antt =====
-- On CreateProject, UpdateProjectBase and DeleteProject of internal/infrastructure/nats/repository.go
-- and the consistency of the bucket of projects.
use lfx_v2_project_service.Prelude.{
  ℕ, String, ◌≡◌, ◌≢◌, ap, ◌∙◌, inl, inr, true, false, Option, none, some, arith, eq_iff, ◌==◌,
  Bool-cases,
}
use lfx_v2_project_service.Exec.{ok}
use lfx_v2_project_service.Domain.Model.{ProjectBase, ProjectSettings}
use lfx_v2_project_service.Nats.Kv.{Entry, Reply, json, plain, done}
use lfx_v2_project_service.Nats.Laws.{entry, KeyValueLaws, Reply-done}
use lfx_v2_project_service.Nats.Repository.{NatsRepository, World}
use lfx_v2_project_service.Nats.Projects.{
  slug_key, create_project, update_project_base, delete_project,
}
use lfx_v2_project_service.Nats.Projects.View.{
  View, IsConsistent, written, erased, written-IsConsistent, erased-IsConsistent, IsConsistent-ext,
  replaced-IsConsistent,
}

module _ {B : Type 0 → Type 0} (s : NatsRepository B)
    (peek : B ProjectBase → String → Option (Entry ProjectBase))
    (laws : KeyValueLaws s.projects peek) (w : World B) where
  -- CreateProject writes two keys of the bucket of projects.
  pub create_project-view :
      (b : ProjectBase) (settings : Option ProjectSettings)
      → slug_key b.slug ≢ b.uid
      → (create_project s b settings w).0 ≡ ok tt
      → (r : ℕ) × (n : ℕ) × ((j : String)
          → peek (create_project s b settings w).1.projects j
            ≡ written b.uid
                (entry (json b) r)
                (written (slug_key b.slug) (entry (plain b.uid) n) (peek w.projects))
                j)
  unfolding create_project
  create_project-view b settings distinct h =
      let p1 = s.projects.put (slug_key b.slug) (plain b.uid) w.projects in
      let p2 = s.projects.put b.uid (json b) p1.1 in
      let (n, e1) = Reply-done p1.0 (ground arith) in
      let (r, e2) = Reply-done p2.0 (ground arith) in
      let slug_written = laws.put_done (slug_key b.slug) (plain b.uid) w.projects n e1 in
      let base_written = laws.put_done b.uid (json b) p1.1 r e2 in
      (
        r,
        n,
        λ j.
            let slug_other = laws.put_other (slug_key b.slug) (plain b.uid) w.projects j in
            let base_other = laws.put_other b.uid (json b) p1.1 j in
            elim settings [
              | none ↦ ground (arith, eq_iff b.uid j, eq_iff (slug_key b.slug) j)
              | some x ↦ ground (arith, eq_iff b.uid j, eq_iff (slug_key b.slug) j)
            ],
      )

  -- A successful CreateProject of a project whose slug key is free and whose UID is no slug key
  -- keeps the bucket of projects consistent: every record stands under its own UID, and the key
  -- of its slug names it.
  pub create_project-IsConsistent :
      (b : ProjectBase) (settings : Option ProjectSettings)
      → IsConsistent (peek w.projects)
      → peek w.projects (slug_key b.slug) ≡ none
      → ((t : String) → slug_key t ≢ b.uid)
      → (create_project s b settings w).0 ≡ ok tt
      → IsConsistent (peek (create_project s b settings w).1.projects)
  create_project-IsConsistent b settings c free distinct h =
      let (r, n, same) = create_project-view b settings (distinct b.slug) h in
      IsConsistent-ext _ _ same (written-IsConsistent (peek w.projects) b r n c free distinct)

  pub delete_project-view :
      (uid : String) (p : ProjectBase) (revision m : ℕ)
      → s.projects.get w.projects uid ≡ done (entry (json p) m)
      → slug_key p.slug ≢ uid
      → (delete_project s uid revision w).0 ≡ ok tt
      → (j : String)
      → peek (delete_project s uid revision w).1.projects j
        ≡ erased (slug_key p.slug) (erased uid (peek w.projects)) j
  unfolding delete_project
  delete_project-view uid p revision m found distinct h j =
      let a = s.projects.delete uid (some revision) w.projects in
      ground (
        arith,
        eq_iff uid j,
        eq_iff (slug_key p.slug) j,
        laws.delete_done uid (some revision) w.projects,
        laws.delete_other uid (some revision) w.projects j,
        laws.delete_done (slug_key p.slug) none a.1,
        laws.delete_other (slug_key p.slug) none a.1 j,
      )

  -- A successful DeleteProject of a project that the store reads, whose slug key is not its UID,
  -- keeps the bucket of projects consistent.
  pub delete_project-IsConsistent :
      (uid : String) (p : ProjectBase) (revision m : ℕ)
      → IsConsistent (peek w.projects)
      → s.projects.get w.projects uid ≡ done (entry (json p) m)
      → slug_key p.slug ≢ uid
      → (delete_project s uid revision w).0 ≡ ok tt
      → IsConsistent (peek (delete_project s uid revision w).1.projects)
  delete_project-IsConsistent uid p revision m c found distinct h =
      IsConsistent-ext _ _ (delete_project-view uid p revision m found distinct h) (
        erased-IsConsistent (peek w.projects) uid p m c
          (laws.get_done w.projects uid (entry (json p) m) found))

  module _ (b old : ProjectBase) (revision m : ℕ)
      (found : s.projects.get w.projects b.uid ≡ done (entry (json old) m))
      (distinct : (t : String) → slug_key t ≢ b.uid)
      (success : (update_project_base s b revision w).0 ≡ ok tt) where
    abbrev updated : View
    updated = peek (update_project_base s b revision w).1.projects

    -- The slug mapping after it has been moved.
    abbrev moved_to : Reply ℕ × B ProjectBase
    moved_to =
        s.projects.put (slug_key b.slug) (plain b.uid)
          (s.projects.delete (slug_key old.slug) none w.projects).1

    three_writes :
        (n r : ℕ) (j : String)
        → peek (s.projects.delete (slug_key old.slug) none w.projects).1 (slug_key old.slug) ≡ none
        → peek moved_to.1 (slug_key b.slug) ≡ some (entry (plain b.uid) n)
        → peek (s.projects.update b.uid (json b) revision moved_to.1).1 b.uid
          ≡ some (entry (json b) r)
        → peek (s.projects.update b.uid (json b) revision moved_to.1).1 j
          ≡ written b.uid
              (entry (json b) r)
              (written
                (slug_key b.slug)
                (entry (plain b.uid) n)
                (erased (slug_key old.slug) (peek w.projects)))
              j
    three_writes n r j gone slug_put base_put =
        let d = s.projects.delete (slug_key old.slug) none w.projects in
        let o1 = laws.delete_other (slug_key old.slug) none w.projects j in
        let o2 = laws.put_other (slug_key b.slug) (plain b.uid) d.1 j in
        let o3 = laws.update_other b.uid (json b) revision moved_to.1 j in
        ground (arith, eq_iff b.uid j, eq_iff (slug_key b.slug) j, eq_iff (slug_key old.slug) j)

    pub update_project_base-kept :
        (old.slug == b.slug) ≡ true
        → (r : ℕ) × ((j : String)
            → updated j ≡ written b.uid (entry (json b) r) (peek w.projects) j)
    unfolding update_project_base
    update_project_base-kept same =
        let (r, e) =
          Reply-done (s.projects.update b.uid (json b) revision w.projects).0 (ground arith) in
        let put = laws.update_done b.uid (json b) revision w.projects r e in
        (
          r,
          λ j.
              let other = laws.update_other b.uid (json b) revision w.projects j in
              ground (arith, eq_iff b.uid j),
        )

    pub update_project_base-moved :
        (old.slug == b.slug) ≡ false
        → (r : ℕ) × (n : ℕ) × ((j : String)
            → updated j
              ≡ written b.uid
                  (entry (json b) r)
                  (written
                    (slug_key b.slug)
                    (entry (plain b.uid) n)
                    (erased (slug_key old.slug) (peek w.projects)))
                  j)
    unfolding update_project_base
    update_project_base-moved moved =
        let d = s.projects.delete (slug_key old.slug) none w.projects in
        let p = s.projects.put (slug_key b.slug) (plain b.uid) d.1 in
        let (n, e1) = Reply-done p.0 (ground arith) in
        let (r, e2) = Reply-done (s.projects.update b.uid (json b) revision p.1).0 (ground arith) in
        let slug_put = laws.put_done (slug_key b.slug) (plain b.uid) d.1 n e1 in
        let base_put = laws.update_done b.uid (json b) revision p.1 r e2 in
        let gone = laws.delete_done (slug_key old.slug) none w.projects (ground arith) in
        let last : updated ≡ peek (s.projects.update b.uid (json b) revision p.1).1 =
          ground arith in
        (
          r,
          n,
          λ j.
              let after =
                written b.uid (entry (json b) r)
                  (written (slug_key b.slug) (entry (plain b.uid) n)
                    (erased (slug_key old.slug) (peek w.projects)))
                  j in
              ◌∙◌ {c = after} (ap (λ f. f j) last) (three_writes n r j gone slug_put base_put),
        )

    -- A successful UpdateProjectBase of a project that the store reads, whose UID is no slug key
    -- and whose slug is the stored one or free, keeps the bucket of projects consistent.
    pub update_project_base-IsConsistent :
        IsConsistent (peek w.projects)
        → (old.slug ≢ b.slug → peek w.projects (slug_key b.slug) ≡ none)
        → IsConsistent updated
    update_project_base-IsConsistent c free =
        let stored = laws.get_done w.projects b.uid (entry (json old) m) found in
        let (k, _, names) = c b.uid old m stored in
        elim (Bool-cases (old.slug == b.slug)) [
          | inl same ↦
              let (r, view) = update_project_base-kept same in
              IsConsistent-ext _ _
                (λ j.
                  view j
                  ∙ ground (
                    arith,
                    eq_iff (slug_key b.slug) j,
                    eq_iff (slug_key old.slug) j,
                    eq_iff old.slug b.slug,
                  ))
                (replaced-IsConsistent (peek w.projects) old b r k m c stored distinct free)
          | inr moved ↦
              let (r, n, view) = update_project_base-moved moved in
              IsConsistent-ext _ _ view
                (replaced-IsConsistent (peek w.projects) old b r n m c stored distinct free)
        ]
