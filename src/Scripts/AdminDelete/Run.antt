-- ===== src/Scripts/AdminDelete/Run.antt =====
-- run of scripts/admin-delete-project/main.go, from the parsed arguments on.
pub mod Guards
use lfx_v2_project_service.Prelude.{
  ℕ, ◌+◌, ◌<◌, String, Bool, true, false, not, Option, none, some, List, [], ◌∷◌, ◌++◌, ◌||◌, ◌&&◌,
  ◌==◌, if◌then◌else◌,
}
use lfx_v2_project_service.Prelude.Text.{trim_space}
use lfx_v2_project_service.Exec.{Result, ok, err, Exec}
use lfx_v2_project_service.Domain.Repository.{MessageBuilder}
use lfx_v2_project_service.Nats.Repository.{World}
use lfx_v2_project_service.Scripts.AdminDelete.Audit.{KvBuckets, ProjectAudit, audit_project}
use lfx_v2_project_service.Scripts.AdminDelete.Execute.{execute_delete}

pub record Config : Type 0 where
  pub uids : List String
  pub dry_run : Bool
  pub sync : Bool
  pub cascade_children : Bool
  pub skip_child_scan : Bool

-- The checks of parseConfig after the flags have been read.
unfoldable pub check_config : Config → Bool
check_config cfg = elim cfg.uids [
  | [] ↦ false
  | uid ∷ uids ↦ not (cfg.cascade_children && cfg.skip_child_scan)
]

-- `stringSliceFlag.Set`; `matches` is uuidRE.MatchString
unfoldable pub set_uid : (matches : String → Bool) → String → List String → Option (List String)
set_uid matches v uids =
    let uid = trim_space v in
    if uid == "" || not (matches uid) then none else some (uids ++ uid ∷ [])

-- The buckets that js opens; `none` is an error.
pub record JetStream (B : Type 0 → Type 0) : Type 0 where
  pub required : Bool
  pub opened : KvBuckets B

-- openBuckets: without the two buckets of projects there is an error, and children are opened only
-- if they are needed.
unfoldable pub open_buckets :
    {B : Type 0 → Type 0} → JetStream B → (need_child_buckets : Bool) → Option (KvBuckets B)
open_buckets js need_child_buckets =
    let bare_buckets = record js.opened {
      links = none;
      folders = none;
      documents = none;
      document_files = none;
    } in
    if js.required then some (if need_child_buckets then js.opened else bare_buckets) else none

-- The records that could be audited, and whether one could not.
abbrev pub Audits : Type 0
Audits = List ProjectAudit × Bool

unfoldable pub add_audit : Result ProjectAudit → Audits → Audits
add_audit (ok rec) (records, had_failure) = (rec ∷ records, had_failure)
add_audit (err e) (records, had_failure) = (records, true)

module _ {B : Type 0 → Type 0} (sha256_hex : String → String) (mb : MessageBuilder (World B)) where
  unfoldable pub audit_all : KvBuckets B → (skip_child_scan : Bool) → List String → World B → Audits
  unfolding audit_project add_audit
  audit_all buckets skip_child_scan [] w = ([], false)
  audit_all buckets skip_child_scan (uid ∷ uids) w =
      add_audit (audit_project buckets uid skip_child_scan w)
        (audit_all buckets skip_child_scan uids w)

  -- The exit code of the deletions: 1 if one has failed.
  unfoldable pub execute_all : KvBuckets B → Config → List ProjectAudit → World B → ℕ × World B
  execute_all buckets cfg [] w = (0, w)
  execute_all buckets cfg (rec ∷ records) w =
      let (result, w') = execute_delete sha256_hex buckets mb cfg.sync rec cfg.cascade_children w in
      let (code, w'') = execute_all buckets cfg records w' in
      (elim result [ ok done ↦ code | err e ↦ 1 ], w'')

  -- `write_audit` writes the audit file, and tells whether that was possible.
  unfoldable pub run_audited :
      (write_audit : List ProjectAudit → Bool)
      → KvBuckets B
      → Config
      → Audits
      → World B
      → ℕ × World B
  unfolding execute_all
  run_audited write_audit buckets cfg (records, had_failure) w =
      if not (write_audit records)
      then (1, w)
      else if had_failure
      then (1, w)
      else if cfg.dry_run
      then (0, w)
      else execute_all buckets cfg records w

  unfoldable pub run_opened :
      (write_audit : List ProjectAudit → Bool)
      → Option (KvBuckets B)
      → Config
      → World B
      → ℕ × World B
  unfolding audit_all run_audited
  run_opened write_audit none cfg w = (1, w)
  run_opened write_audit (some buckets) cfg w =
      run_audited write_audit buckets cfg (audit_all buckets cfg.skip_child_scan cfg.uids w) w

  unfoldable pub run :
      (write_audit : List ProjectAudit → Bool) → JetStream B → Config → World B → ℕ × World B
  unfolding check_config open_buckets run_opened
  run write_audit js cfg w =
      let buckets = open_buckets js (not cfg.skip_child_scan || cfg.cascade_children) in
      if check_config cfg then run_opened write_audit buckets cfg w else (2, w)
