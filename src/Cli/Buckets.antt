-- ===== src/Cli/Buckets.antt =====
-- migrateBucket, runNATS and Run of cmd/project-cli/commands/sync/rename_project_slug_runner.go. The
-- goroutines of a bucket run one after another; the buckets of a JetStream context share one state.
pub mod Counts
pub mod Completion
use lfx_v2_project_service.Prelude.{
  ℕ, ◌+◌, String, Bool, not, none, some, List, [], ◌∷◌, ◌||◌, ltb, length, if◌then◌else◌,
}
use lfx_v2_project_service.Prelude.Text.{has_prefix}
use lfx_v2_project_service.Prelude.Assoc.{Pair, lookup}
use lfx_v2_project_service.Nats.Kv.{Reply, done, failed, KeyValue}
use lfx_v2_project_service.Cli.Records.{
  Object, RawJson, RecordError, slug_mismatch, Environment, RenameSlug, Outcome, process_kv_record,
}

-- js.KeyValue: a bucket, jetstream.ErrBucketNotFound, or another error
pub data Opened (W J : Type 0) : Type 0 where
  opened : KeyValue W (Object J) → Opened W J
  bucket_not_found : Opened W J
  open_failed : Opened W J

pub record BucketStats : Type 0 where
  pub total : ℕ
  pub updated : ℕ
  pub skipped : ℕ
  pub failed : ℕ

pub data Migrated : Type 0 where
  missing : Migrated
  broken : Migrated
  migrated : BucketStats → Migrated

pub record RenameSlugSummary : Type 0 where
  pub total : ℕ
  pub updated : ℕ
  pub skipped : ℕ
  pub failed : ℕ
  pub errors : ℕ

unfoldable pub default_nats_buckets : List String
default_nats_buckets =
    "committee-members" ∷ "committees" ∷ "committee-settings" ∷ "projects" ∷ "project-settings" ∷ []

unfoldable pub bucket_slug_fields : List (Pair (List String))
bucket_slug_fields =
    ("committee-members", "project_slug" ∷ [])
    ∷ ("committees", "project_slug" ∷ [])
    ∷ ("committee-settings", "project_slug" ∷ [])
    ∷ ("projects", "slug" ∷ [])
    ∷ ("project-settings", "project_slug" ∷ [])
    ∷ []

unfoldable pub bucket_fields_for : String → List String
unfolding bucket_slug_fields
bucket_fields_for bucket = elim (lookup bucket bucket_slug_fields) [
  | none ↦ "project_slug" ∷ []
  | some fields ↦ fields
]

unfoldable pub is_record_key : String → Bool
is_record_key key = not (has_prefix key "lookup/" || has_prefix key "slug/")

unfoldable pub record_keys : List String → List String
unfolding is_record_key
record_keys [] = []
record_keys (key ∷ keys) =
    let rest = record_keys keys in if is_record_key key then key ∷ rest else rest

unfoldable pub count_outcome : Outcome → BucketStats → BucketStats
count_outcome none stats = record stats { updated = stats.updated + 1 }
count_outcome (some slug_mismatch) stats = record stats { skipped = stats.skipped + 1 }
count_outcome (some e) stats = record stats { failed = stats.failed + 1 }

module _ {W J : Type 0} (raw : RawJson J) (env : Environment W) (dry_run : Bool) where
  module _ (kv : KeyValue W (Object J)) (job : RenameSlug) where
    unfoldable pub process_keys : List String → BucketStats → W → BucketStats × W
    unfolding process_kv_record count_outcome
    process_keys [] stats w = (stats, w)
    process_keys (key ∷ keys) stats w =
        let (outcome, w') = process_kv_record raw env kv job key dry_run w in
        process_keys keys (count_outcome outcome stats) w'

    unfoldable pub migrate_keys : Reply (List String) → W → Migrated × W
    unfolding process_keys record_keys
    migrate_keys (failed c) w = (broken, w)
    migrate_keys (done keys) w =
        let records = record_keys keys in
        let start : BucketStats = record {
          total = length records;
          updated = 0;
          skipped = 0;
          failed = 0;
        } in
        let (stats, w') = process_keys records start w in (migrated stats, w')

  unfoldable pub migrate_opened : Opened W J → RenameSlug → W → Migrated × W
  unfolding migrate_keys
  migrate_opened bucket_not_found job w = (missing, w)
  migrate_opened open_failed job w = (broken, w)
  migrate_opened (opened kv) job w = migrate_keys kv job (kv.list_keys w) w

  module _ (open_bucket : String → Opened W J) (old_slug new_slug : String) where
    abbrev pub job_for : String → RenameSlug
    job_for bucket = record {
      fields = bucket_fields_for bucket;
      old_slug = old_slug;
      new_slug = new_slug;
    }

    unfoldable pub migrate_bucket : String → W → Migrated × W
    unfolding migrate_opened bucket_fields_for
    migrate_bucket bucket w = migrate_opened (open_bucket bucket) (job_for bucket) w

    unfoldable pub add_bucket : Migrated → RenameSlugSummary → RenameSlugSummary
    add_bucket missing summary = summary
    add_bucket broken summary = record summary { errors = summary.errors + 1 }
    add_bucket (migrated stats) summary = record summary {
      total = summary.total + stats.total;
      updated = summary.updated + stats.updated;
      skipped = summary.skipped + stats.skipped;
      failed = summary.failed + stats.failed;
    }

    unfoldable pub migrate_buckets : List String → RenameSlugSummary → W → RenameSlugSummary × W
    unfolding migrate_bucket add_bucket
    migrate_buckets [] summary w = (summary, w)
    migrate_buckets (bucket ∷ buckets) summary w =
        let (result, w') = migrate_bucket bucket w in
        migrate_buckets buckets (add_bucket result summary) w'

    -- The summary, whether runNATS returns nil, and the buckets.
    unfoldable pub run_nats : List String → W → RenameSlugSummary × Bool × W
    unfolding migrate_buckets
    run_nats buckets w =
        let start : RenameSlugSummary = record {
          total = 0;
          updated = 0;
          skipped = 0;
          failed = 0;
          errors = 0;
        } in
        let (summary, w') = migrate_buckets buckets start w in
        (summary, not (ltb 0 summary.errors || ltb 0 summary.failed), w')
