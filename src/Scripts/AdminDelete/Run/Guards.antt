-- ===== src/Scripts/AdminDelete/Run/Guards.antt =====
-- On the runs of scripts/admin-delete-project/main.go that write nothing.
use lfx_v2_project_service.Prelude.{
  String, ◌≡◌, ◌⊎◌, refl, inl, inr, Bool, true, not, ◌||◌, Option, none, some, List, [], ◌∷◌, arith,
  Bool-cases, Member, ap, sym, ◌∙◌,
}
use lfx_v2_project_service.Exec.{Result, ok, err}
use lfx_v2_project_service.Domain.Error.{Error}
use lfx_v2_project_service.Domain.Repository.{MessageBuilder}
use lfx_v2_project_service.Nats.Repository.{World}
use lfx_v2_project_service.Scripts.AdminDelete.Audit.{KvBuckets, ProjectAudit, audit_project}
use lfx_v2_project_service.Scripts.AdminDelete.Run.{
  Config, JetStream, check_config, open_buckets, Audits, add_audit, audit_all, run_audited,
  run_opened, run,
}

module _ {B : Type 0 → Type 0} (sha256_hex : String → String) (mb : MessageBuilder (World B))
    (write_audit : List ProjectAudit → Bool) where
  add_audit-failure :
      (result : Result ProjectAudit) (audits : Audits)
      → audits.1 ≡ true
      → (add_audit result audits).1 ≡ true
  unfolding add_audit
  add_audit-failure (ok rec) audits h = h
  add_audit-failure (err e) audits h = refl

  audit_all-failure :
      (buckets : KvBuckets B) (skip : Bool) (uids : List String) (w : World B) (uid : String)
      (e : Error)
      → Member uid uids
      → audit_project buckets uid skip w ≡ err e
      → (audit_all sha256_hex mb buckets skip uids w).1 ≡ true
  unfolding audit_all
  audit_all-failure buckets skip [] w uid e m h = absurd m
  audit_all-failure buckets skip (x ∷ uids) w uid e (inl same) h =
      let here : audit_project buckets x skip w ≡ err e =
        ap (λ u. audit_project buckets u skip w) (sym same) ∙ h in
      rw here (unfold add_audit in refl)
  audit_all-failure buckets skip (x ∷ uids) w uid e (inr later) h =
      add_audit-failure (audit_project buckets x skip w)
        (audit_all sha256_hex mb buckets skip uids w)
        (audit_all-failure buckets skip uids w uid e later h)

  run_audited-guarded :
      (buckets : KvBuckets B) (cfg : Config) (audits : Audits) (w : World B)
      → (cfg.dry_run ≡ true) ⊎ (audits.1 ≡ true)
      → (run_audited sha256_hex mb write_audit buckets cfg audits w).1 ≡ w
  unfolding run_audited
  run_audited-guarded buckets cfg (records, had_failure) w (inl dry) = ground arith
  run_audited-guarded buckets cfg (records, had_failure) w (inr bad) = ground arith

  run_opened-guarded :
      (buckets : Option (KvBuckets B)) (cfg : Config) (w : World B)
      → (cfg.dry_run ≡ true)
        ⊎ ((opened : KvBuckets B)
            → buckets ≡ some opened
            → (audit_all sha256_hex mb opened cfg.skip_child_scan cfg.uids w).1 ≡ true)
      → (run_opened sha256_hex mb write_audit buckets cfg w).1 ≡ w
  unfolding run_opened
  run_opened-guarded none cfg w h = refl
  run_opened-guarded (some buckets) cfg w (inl dry) =
      run_audited-guarded buckets cfg
        (audit_all sha256_hex mb buckets cfg.skip_child_scan cfg.uids w) w (inl dry)
  run_opened-guarded (some buckets) cfg w (inr bad) =
      run_audited-guarded buckets cfg
        (audit_all sha256_hex mb buckets cfg.skip_child_scan cfg.uids w) w (inr (bad buckets refl))

  -- A run writes nothing and sends nothing if it is a dry run, or if one of its UIDs cannot be
  -- audited in the buckets that it has opened.
  pub run-guarded :
      (js : JetStream B) (cfg : Config) (w : World B)
      → (cfg.dry_run ≡ true)
        ⊎ ((uid : String) × (e : Error) × (Member uid cfg.uids)
            × ((opened : KvBuckets B)
                → open_buckets js (not cfg.skip_child_scan || cfg.cascade_children) ≡ some opened
                → audit_project opened uid cfg.skip_child_scan w ≡ err e))
      → (run sha256_hex mb write_audit js cfg w).1 ≡ w
  unfolding run
  run-guarded js cfg w why =
      let need = not cfg.skip_child_scan || cfg.cascade_children in
      elim (Bool-cases (check_config cfg)) [
        | inr bad ↦ rw bad refl
        | inl fine ↦ rw fine (
            run_opened-guarded (open_buckets js need) cfg w (elim why [
              | inl dry ↦ inl dry
              | inr (uid, e, member, fails) ↦ inr λ opened same.
                  audit_all-failure opened cfg.skip_child_scan cfg.uids w uid e member
                    (fails opened same)
            ]))
      ]
