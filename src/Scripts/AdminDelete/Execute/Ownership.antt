-- ===== src/Scripts/AdminDelete/Execute/Ownership.antt =====
-- On the deletion of one project in scripts/admin-delete-project/main.go.
use lfx_v2_project_service.Prelude.{
  String, ◌≡◌, ◌≢◌, refl, ◌⊎◌, inl, inr, Bool, true, false, Option, none, some, arith, eq_iff,
  ℕ_discrete, ap, sym, ◌∙◌,
}
use lfx_v2_project_service.Exec.{ok, err, error_of, is_ok, ◌>>◌, >>-eq-ok}
use lfx_v2_project_service.Domain.Error.{Error}
use lfx_v2_project_service.Domain.Model.{ProjectBase, ProjectSettings}
use lfx_v2_project_service.Domain.Message.{IndexerMessage, bare}
use lfx_v2_project_service.Domain.Repository.{MessageBuilder}
use lfx_v2_project_service.Nats.Kv.{Entry}
use lfx_v2_project_service.Nats.Laws.{KeyValueLaws, Reply-cases}
use lfx_v2_project_service.Nats.Repository.{World}
use lfx_v2_project_service.Scripts.AdminDelete.Audit.{KvBuckets, ProjectAudit}
use lfx_v2_project_service.Scripts.AdminDelete.Execute.{
  delete_base, delete_slug, delete_settings, delete_project_records, execute_delete,
}

module _ {B : Type 0 → Type 0} (sha256_hex : String → String) (buckets : KvBuckets B)
    (mb : MessageBuilder (World B)) (sync : Bool)
    (peek : B ProjectBase → String → Option (Entry ProjectBase))
    (peek_settings : B ProjectSettings → String → Option (Entry ProjectSettings))
    (laws : KeyValueLaws buckets.projects peek)
    (settings_laws : KeyValueLaws buckets.project_settings peek_settings) (rec : ProjectAudit)
    (audited : Entry ProjectBase) (base : rec.base.entry ≡ some audited) (w : World B) where
  -- With no cascade, the deletion of a project that has been written since its audit, which has
  -- found a revision other than 0, fails, leaves
  -- the bucket of projects as it was under every key, touches no other bucket and sends nothing.
  pub execute_delete-stale :
      (stored : Entry ProjectBase)
      → peek w.projects rec.uid ≡ some stored
      → audited.revision ≢ 0
      → stored.revision ≢ audited.revision
      → let out = execute_delete sha256_hex buckets mb sync rec false w in
        ((e : Error) × (out.0 ≡ err e))
        × ((j : String) → peek out.1.projects j ≡ peek w.projects j)
        × (out.1 ≡ record w { projects = out.1.projects })
  unfolding execute_delete
  execute_delete-stale stored there nonzero stale =
      let refused =
        laws.delete_stale rec.uid audited.revision w.projects stored nonzero there stale in
      rw base (
        (error_of (execute_delete sha256_hex buckets mb sync rec false w).0, ground arith),
        λ j. ground (
          arith,
          laws.delete_other rec.uid (some audited.revision) w.projects j,
          eq_iff rec.uid j,
        ),
        ground arith,
      )

  delete_base-ok :
      is_ok (delete_base sha256_hex buckets mb sync rec.uid rec.base.entry w).0 ≡ true
      → peek (delete_base sha256_hex buckets mb sync rec.uid rec.base.entry w).1.projects rec.uid
        ≡ none
  unfolding delete_base
  delete_base-ok = rw base (λ h.
      let a = buckets.projects.delete rec.uid (some audited.revision) w.projects in
      elim (Reply-cases a.0) [
        | inl (tt, deleted) ↦ laws.delete_done rec.uid (some audited.revision) w.projects deleted
        | inr (c, failure) ↦ absurd (let g = rw failure at h in cc g)
      ])

  delete_slug-ok :
      (key : String) (found : Option (Entry ProjectBase)) (w : World B)
      → is_ok (delete_slug sha256_hex buckets mb sync key found w).0 ≡ true
      → let after = (delete_slug sha256_hex buckets mb sync key found w).1 in
        ((e : Entry ProjectBase) → found ≡ some e → peek after.projects key ≡ none)
        × ((j : String) → key ≢ j → peek after.projects j ≡ peek w.projects j)
  unfolding delete_slug
  delete_slug-ok key none w h = (λ e found. absurd (cc found), λ j ne. refl)
  delete_slug-ok key (some x) w h =
      elim (Reply-cases (buckets.projects.delete key none w.projects).0) [
        | inl (tt, deleted) ↦ (
          λ e found. laws.delete_done key none w.projects deleted,
          λ j ne. laws.delete_other key none w.projects j ne,
        )
        | inr (c, failure) ↦ absurd (let g = rw failure at h in cc g)
      ]

  delete_settings-ok :
      (found : Option (Entry ProjectSettings)) (w : World B)
      → is_ok (delete_settings sha256_hex buckets mb sync rec.uid found w).0 ≡ true
      → let after = (delete_settings sha256_hex buckets mb sync rec.uid found w).1 in
        ((e : Entry ProjectSettings)
          → found ≡ some e
          → peek_settings after.project_settings rec.uid ≡ none)
        × (after.projects ≡ w.projects)
  unfolding delete_settings
  delete_settings-ok none w h = (λ e found. absurd (cc found), refl)
  delete_settings-ok (some x) w h =
      elim (Reply-cases (buckets.project_settings.delete rec.uid none w.project_settings).0) [
        | inl (tt, deleted) ↦
            (λ e found. settings_laws.delete_done rec.uid none w.project_settings deleted, refl)
        | inr (c, failure) ↦ absurd (let g = rw failure at h in cc g)
      ]

  -- Sending a message changes neither bucket of the project.
  abbrev pub KeepsBuckets : Type 0
  KeepsBuckets =
      (subject : String) (m : IndexerMessage) (w : World B)
      → ((mb.send_indexer_message subject m sync w).1.projects ≡ w.projects)
        × ((mb.send_indexer_message subject m sync w).1.project_settings ≡ w.project_settings)

  -- With no cascade and a slug key that is not the UID, a successful deletion was made against the
  -- audited revision, if that is not 0, and leaves no base record, and neither a slug key nor settings where the
  -- audit has found them.
  pub execute_delete-done :
      KeepsBuckets
      → rec.slug_kv.key ≢ rec.uid
      → (execute_delete sha256_hex buckets mb sync rec false w).0 ≡ ok tt
      → let after = (execute_delete sha256_hex buckets mb sync rec false w).1 in
        ((stored : Entry ProjectBase)
          → peek w.projects rec.uid ≡ some stored
          → (stored.revision ≡ audited.revision) ⊎ (audited.revision ≡ 0))
        × (peek after.projects rec.uid ≡ none)
        × ((e : Entry ProjectBase)
            → rec.slug_kv.entry ≡ some e
            → peek after.projects rec.slug_kv.key ≡ none)
        × ((e : Entry ProjectSettings)
            → rec.settings.entry ≡ some e
            → peek_settings after.project_settings rec.uid ≡ none)
  execute_delete-done keeps distinct h =
      let m0 = delete_base sha256_hex buckets mb sync rec.uid rec.base.entry in
      let m1 = mb.send_indexer_message "lfx.index.project" (bare rec.uid) sync in
      let m2 = mb.send_indexer_message "lfx.index.project_settings" (bare rec.uid) sync in
      let m3 = delete_slug sha256_hex buckets mb sync rec.slug_kv.key rec.slug_kv.entry in
      let m4 = delete_settings sha256_hex buckets mb sync rec.uid rec.settings.entry in
      let w1 = (m0 w).1 in
      let w2 = (m1 w1).1 in
      let w3 = (m2 w2).1 in
      let w4 = (m3 w3).1 in
      let h0 : ((m0 >> (m1 >> (m2 >> (m3 >> m4)))) w).0 ≡ ok tt =
        unfold execute_delete delete_project_records in h in
      let p0 = >>-eq-ok m0 (m1 >> (m2 >> (m3 >> m4))) w h0 in
      let h1 : ((m1 >> (m2 >> (m3 >> m4))) w1).0 ≡ ok tt = ap (λ r. r.0) (sym p0.1) ∙ h0 in
      let p1 = >>-eq-ok m1 (m2 >> (m3 >> m4)) w1 h1 in
      let h2 : ((m2 >> (m3 >> m4)) w2).0 ≡ ok tt = ap (λ r. r.0) (sym p1.1) ∙ h1 in
      let p2 = >>-eq-ok m2 (m3 >> m4) w2 h2 in
      let h3 : ((m3 >> m4) w3).0 ≡ ok tt = ap (λ r. r.0) (sym p2.1) ∙ h2 in
      let p3 = >>-eq-ok m3 m4 w3 h3 in
      let h4 : (m4 w4).0 ≡ ok tt = ap (λ r. r.0) (sym p3.1) ∙ h3 in
      let whole : execute_delete sha256_hex buckets mb sync rec false w ≡ m4 w4 =
        unfold execute_delete delete_project_records in (p0.1 ∙ p1.1 ∙ p2.1 ∙ p3.1) in
      let base_gone = delete_base-ok p0.0 in
      let k1 = keeps "lfx.index.project" (bare rec.uid) w1 in
      let k2 = keeps "lfx.index.project_settings" (bare rec.uid) w2 in
      let slug = delete_slug-ok rec.slug_kv.key rec.slug_kv.entry w3 p3.0 in
      let settings = delete_settings-ok rec.settings.entry w4 (ap is_ok h4) in
      (
        λ stored there. elim (ℕ_discrete stored.revision audited.revision) [
          | yes same ↦ inl same
          | no stale ↦ elim (ℕ_discrete audited.revision 0) [
            | yes unconditional ↦ inr unconditional
            | no nonzero ↦
                let out = execute_delete-stale stored there nonzero stale in
                absurd (cc (out.0.1, h))
          ]
        ],
        rw whole (
            ap (λ b. peek b rec.uid) settings.1
            ∙ slug.1 rec.uid distinct
            ∙ ap (λ b. peek b rec.uid) (k2.0 ∙ k1.0)
            ∙ base_gone),
        λ e found. rw whole (ap (λ b. peek b rec.slug_kv.key) settings.1 ∙ slug.0 e found),
        λ e found. rw whole (settings.0 e found),
      )
