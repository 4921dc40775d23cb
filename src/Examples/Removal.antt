-- ===== src/Examples/Removal.antt =====
-- Concrete runs of the removal of projects, over the buckets of the sample world.
use lfx_v2_project_service.Prelude.{
  ℕ, String, ◌≡◌, refl, ◌⊎◌, inl, true, false, none, some, [], ◌∷◌, arith, eq_iff, Member,
}
use lfx_v2_project_service.Prelude.Text.{has_prefix}
use lfx_v2_project_service.Exec.{ok, err}
use lfx_v2_project_service.Domain.Error.{Error}
use lfx_v2_project_service.Domain.Model.{ProjectBase, ProjectSettings, ProjectLink}
use lfx_v2_project_service.Nats.Kv.{json, plain, Entry}
use lfx_v2_project_service.Nats.Laws.{entry}
use lfx_v2_project_service.Nats.Memory.{Memory, peek, memory, memory_files, memory-laws}
use lfx_v2_project_service.Scripts.AdminDelete.Audit.{
  KvBuckets, ProjectAudit, no_children, audit_project, scan_bucket,
}
use lfx_v2_project_service.Scripts.AdminDelete.Audit.Scans.{IsOwn, scan_bucket_exact}
use lfx_v2_project_service.Scripts.AdminDelete.Execute.{execute_delete}
use lfx_v2_project_service.Scripts.AdminDelete.Execute.Ownership.{
  execute_delete-stale, execute_delete-done,
}
use lfx_v2_project_service.Scripts.AdminDelete.Run.{Config, JetStream, run}
use lfx_v2_project_service.Scripts.AdminDelete.Run.Guards.{run-guarded}
use lfx_v2_project_service.Examples.Sample.{
  digest, messages, world, zephyr, zephyr_settings, charter_link,
}

abbrev buckets : KvBuckets Memory
buckets = record {
  projects = memory;
  project_settings = memory;
  links = some memory;
  folders = some memory;
  documents = some memory;
  document_files = some memory_files;
}

abbrev base_entry : Entry ProjectBase
base_entry = entry (json zephyr) 2

-- The audit of the sample project, with the children left out.
abbrev audit : ProjectAudit
audit = record {
  uid = "u1";
  base = record { key = "u1"; entry = some base_entry };
  slug = "zephyr";
  slug_kv = record { key = "slug/zephyr"; entry = some (entry (plain "u1") 1) };
  settings = record { key = "u1"; entry = some (entry (json zephyr_settings) 1) };
  children = no_children;
  malformed = false;
}

audited : audit_project buckets "u1" true world ≡ ok audit
unfolding audit_project memory
audited = refl

abbrev old_entry : Entry ProjectBase
old_entry = entry (json zephyr) 1

-- The audit has seen revision 1; the bucket holds revision 2.
abbrev old_audit : ProjectAudit
old_audit = record audit { base = record { key = "u1"; entry = some old_entry } }

execute_delete-stale_example :
    let out = execute_delete digest buckets messages true old_audit false world in
    ((e : Error) × (out.0 ≡ err e))
    × ((j : String) → peek out.1.projects j ≡ peek world.projects j)
    × (out.1 ≡ record world { projects = out.1.projects })
execute_delete-stale_example =
    execute_delete-stale digest buckets messages true peek peek memory-laws memory-laws old_audit
      old_entry refl world base_entry (unfold peek in refl) (omega arith) (omega arith)

execute_delete-done_example :
    let after = (execute_delete digest buckets messages true audit false world).1 in
    ((stored : Entry ProjectBase)
      → peek world.projects "u1" ≡ some stored
      → (stored.revision ≡ 2) ⊎ ◌≡◌ {A = ℕ} 2 0)
    × (peek after.projects "u1" ≡ none)
    × ((e : Entry ProjectBase)
        → audit.slug_kv.entry ≡ some e
        → peek after.projects "slug/zephyr" ≡ none)
    × ((e : Entry ProjectSettings)
        → audit.settings.entry ≡ some e
        → peek after.project_settings "u1" ≡ none)
execute_delete-done_example =
    execute_delete-done digest buckets messages true peek peek memory-laws memory-laws audit
      base_entry refl world (λ subject m w. (refl, refl))
      (λ e. cc ((eq_iff "slug/zephyr" "u1").1 e)) (unfold execute_delete memory in refl)

scan_bucket_exact_example :
    ((a : ProjectLink)
      → Member a (charter_link ∷ [])
      → IsOwn memory ProjectLink.project_uid "u1" peek memory-laws world.links a)
    × ((key : String) (a : ProjectLink) (n : ℕ)
        → peek world.links key ≡ some (entry (json a) n)
        → has_prefix key "lookup/" ≡ false
        → ProjectLink.project_uid a ≡ "u1"
        → Member a (charter_link ∷ []))
scan_bucket_exact_example =
    scan_bucket_exact memory ProjectLink.project_uid "u1" peek memory-laws world.links
      (charter_link ∷ []) (unfold scan_bucket memory has_prefix in refl)

abbrev config : Config
config = record {
  uids = "u1" ∷ [];
  dry_run = true;
  sync = true;
  cascade_children = true;
  skip_child_scan = false;
}

abbrev js : JetStream Memory
js = record { required = true; opened = buckets }

-- A real run with its cascade leaves nothing of the project but the key of its deletion.
removed :
    let (code, after) =
      run digest messages (λ records. true) js (record config { dry_run = false }) world in
    (code ≡ 0)
    × (after.projects.entries ≡ [])
    × (after.project_settings.entries ≡ [])
    × (after.links.entries ≡ [])
    × (after.folders.entries ≡ [])
    × (after.documents.entries ≡ [])
unfolding run execute_delete memory has_prefix
removed = (refl, refl, refl, refl, refl, refl)

run-guarded_example : (run digest messages (λ records. true) js config world).1 ≡ world
run-guarded_example = run-guarded digest messages (λ records. true) js config world (inl refl)
