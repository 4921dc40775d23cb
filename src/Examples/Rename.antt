-- ===== src/Examples/Rename.antt =====
-- Concrete runs of the slug renaming tool over a bucket in memory, whose raw values are texts.
use lfx_v2_project_service.Prelude.{
  ℕ, zero, suc, ◌≡◌, ◌+◌, eq_iff, ◌==◌, refl, String, true, false, none, some, [], ◌∷◌,
  if◌then◌else◌,
}
use lfx_v2_project_service.Prelude.Assoc.{lookup}
use lfx_v2_project_service.Prelude.Text.{trim_space, has_prefix}
use lfx_v2_project_service.Nats.Kv.{json, plain}
use lfx_v2_project_service.Nats.Laws.{entry, is_listed}
use lfx_v2_project_service.Nats.Memory.{Memory, peek, memory, memory-laws}
use lfx_v2_project_service.Nats.Projects.{slug_key}
use lfx_v2_project_service.Cli.Records.{
  Object, RawJson, Environment, RenameSlug, renamed, process_kv_record,
}
use lfx_v2_project_service.Cli.Records.Renaming.{IsSound, lookup-renamed}
use lfx_v2_project_service.Cli.Records.Updates.{Overwrote, process_kv_record-Overwrote}
use lfx_v2_project_service.Cli.Records.Quiet.{IsQuiet, IsRenamed}
use lfx_v2_project_service.Cli.Buckets.{
  Opened, opened, bucket_not_found, is_record_key, migrate_keys, run_nats,
}
use lfx_v2_project_service.Cli.Buckets.Counts.{run_nats-counted}
use lfx_v2_project_service.Cli.Buckets.Completion.{migrate_keys_complete, migrate_keys-slug_keys}
use lfx_v2_project_service.Cli.Search.{SearchClient}
use lfx_v2_project_service.Cli.Run.{RenameSlugOptions, Stores, run, resolve_slugs, nats_buckets}
use lfx_v2_project_service.Cli.Run.DryRun.{run-dry_run}

abbrev texts : RawJson String
texts = record {
  unmarshal_string = λ s. some s;
  marshal_string = λ s. s;
  marshalled_now = "2026-01-01T00:00:00Z";
}

abbrev Bucket : Type 0
Bucket = Memory (Object String)

abbrev alone : Environment Bucket
alone = record { others = λ attempt b. b; sleep_with_context = λ ms b. (false, b) }

alone-IsQuiet : IsQuiet alone
alone-IsQuiet = record { no_others = λ attempt b. refl; sleeps = λ ms b. refl }

abbrev job : RenameSlug
job = record { fields = "slug" ∷ []; old_slug = "old"; new_slug = "new" }

job-IsSound : IsSound texts job
unfolding is_listed
job-IsSound = record {
  round_trip = refl;
  differ = λ h. cc ((eq_iff "new" "old").1 h);
  no_timestamp = refl;
}

abbrev old_record : Object String
old_record = ("slug", "old") ∷ ("name", "old") ∷ ("updated_at", "2025") ∷ []

abbrev bucket : Bucket
bucket = record {
  entries =
      ("p1", entry (json old_record) 3)
      ∷ ("p2", entry (json (("slug", "other") ∷ [])) 4)
      ∷ ("slug/old", entry (plain "p1") 1)
      ∷ [];
  last = 4;
}

-- The name keeps the old slug's text, since it is no slug field.
renamed_fields :
    renamed texts job old_record
    ≡ ("slug", "new") ∷ ("name", "old") ∷ ("updated_at", "2026-01-01T00:00:00Z") ∷ []
unfolding renamed
renamed_fields = refl

-- Another client writes the record before the first update: the tool tries again, over its record.
abbrev busy : Environment Bucket
busy = record {
  others = λ attempt b. elim attempt [
    | suc zero ↦ (memory.put "p1" (json (("slug", "old") ∷ ("name", "changed") ∷ [])) b).1
    | _ ↦ b
  ];
  sleep_with_context = λ ms b. (false, b);
}

slugs_read :
    (resolve_slugs "" "" (" old " ∷ "new" ∷ []) ≡ some ("old", "new"))
    × (resolve_slugs "old" "" ("old" ∷ "new" ∷ []) ≡ none)
    × (resolve_slugs "old" "" [] ≡ none)
    × (nats_buckets (" projects" ∷ "" ∷ "committees " ∷ []) ≡ "projects" ∷ "committees" ∷ [])
unfolding resolve_slugs nats_buckets trim_space
slugs_read = (refl, refl, refl, refl)

lookup-renamed_example : lookup "name" (renamed texts job old_record) ≡ some "old"
unfolding lookup is_listed
lookup-renamed_example =
    lookup-renamed texts job old_record "name" (λ h. cc ((eq_iff "name" "updated_at").1 h))

-- Beside the busy client both attempts are needed, and its name is kept.
busy_record : process_kv_record texts busy memory job "p1" false bucket ≡ (
  none,
  record {
    entries =
        ("p1", entry (json (("slug", "new") ∷ ("name", "changed") ∷ [])) 6)
        ∷ ("p2", entry (json (("slug", "other") ∷ [])) 4)
        ∷ ("slug/old", entry (plain "p1") 1)
        ∷ [];
    last = 6;
  },
)
unfolding process_kv_record memory
busy_record = refl

process_kv_record-Overwrote_example :
    Overwrote texts alone memory job "p1" peek memory-laws
      (process_kv_record texts alone memory job "p1" false bucket).1
process_kv_record-Overwrote_example =
    process_kv_record-Overwrote texts alone memory job "p1" peek memory-laws
      (λ attempt b e h. (e, h, λ same. refl)) bucket (unfold process_kv_record memory in refl)

migrate_keys_complete_example :
    IsRenamed texts alone memory job peek memory-laws alone-IsQuiet "p1"
      (migrate_keys texts alone false memory job (memory.list_keys bucket) bucket).1
migrate_keys_complete_example =
    migrate_keys_complete texts alone memory job peek memory-laws alone-IsQuiet job-IsSound bucket
      ("p1" ∷ "p2" ∷ "slug/old" ∷ []) (record { total = 2; updated = 1; skipped = 1; failed = 0 })
      "p1" (unfold memory in refl) (unfold migrate_keys memory has_prefix in refl) refl
      (unfold is_record_key has_prefix in refl)

migrate_keys-slug_keys_example :
    peek
      (migrate_keys texts alone false memory job (memory.list_keys bucket) bucket).1
      (slug_key "old")
    ≡ peek bucket (slug_key "old")
migrate_keys-slug_keys_example =
    migrate_keys-slug_keys texts alone memory job peek memory-laws alone-IsQuiet false
      (memory.list_keys bucket) bucket "old"

-- One bucket is there; OpenSearch answers with one updated document.
abbrev open_bucket : String → Opened Bucket String
open_bucket name = if name == "projects" then opened memory else bucket_not_found

abbrev client : SearchClient ℕ
client = record {
  search_total = λ query o. some o;
  update_by_query = λ query old new o.
      (some (record { total = o; updated = o; version_conflicts = 0; noops = 0; failures = 0 }), o);
}

abbrev options : RenameSlugOptions
options = record {
  old_slug = "old";
  new_slug = "new";
  dry_run = true;
  concurrency = 50;
  nats_buckets = [];
}

abbrev stores : Stores ℕ Bucket
stores = record { open_search = 1; nats = bucket }

whole_run :
    (run texts alone (some client) (some open_bucket) (record options { dry_run = false }) stores).0
    ≡ none
unfolding run memory has_prefix
whole_run = refl

run-dry_run_example : (run texts alone (some client) (some open_bucket) options stores).1 ≡ stores
run-dry_run_example = run-dry_run texts alone (some client) (some open_bucket) options stores refl

run_nats-counted_example :
    let summary = (run_nats texts alone false open_bucket "old" "new" ("projects" ∷ []) bucket).0 in
    summary.total ≡ summary.updated + summary.skipped + summary.failed
run_nats-counted_example =
    run_nats-counted texts alone false open_bucket "old" "new" ("projects" ∷ []) bucket
