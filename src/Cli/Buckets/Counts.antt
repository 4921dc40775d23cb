-- ===== src/Cli/Buckets/Counts.antt =====
-- On the counts of cmd/project-cli/commands/sync/rename_project_slug_runner.go.
use lfx_v2_project_service.Prelude.{
  ℕ, ◌+◌, ◌≤◌, String, ◌≡◌, refl, Bool, none, some, List, [], ◌∷◌, length, arith,
}
use lfx_v2_project_service.Nats.Kv.{Reply, done, failed, KeyValue}
use lfx_v2_project_service.Cli.Records.{
  Object, RawJson, RecordError, slug_mismatch, Environment, RenameSlug, Outcome, process_kv_record,
}
use lfx_v2_project_service.Cli.Buckets.{
  Opened, opened, bucket_not_found, open_failed, BucketStats, Migrated, missing, broken, migrated,
  RenameSlugSummary, job_for, record_keys, count_outcome, process_keys, migrate_keys,
  migrate_opened, migrate_bucket, add_bucket, migrate_buckets, run_nats,
}

abbrev pub counted : BucketStats → ℕ
counted stats = stats.updated + stats.skipped + stats.failed

-- A record adds one to one of the counts, and none to the total.
pub count_outcome-counted :
    (o : Outcome) (stats : BucketStats)
    → (counted (count_outcome o stats) ≡ counted stats + 1)
      × ((count_outcome o stats).total ≡ stats.total)
      × (stats.failed ≤ (count_outcome o stats).failed)
unfolding count_outcome
count_outcome-counted none stats = omega arith
count_outcome-counted (some slug_mismatch) stats = omega arith
count_outcome-counted (some (RecordError.get_failed c)) stats = omega arith
count_outcome-counted (some RecordError.unmarshal_failed) stats = omega arith
count_outcome-counted (some (RecordError.update_failed c)) stats = omega arith
count_outcome-counted (some RecordError.context_done) stats = omega arith

abbrev AreCounted : Migrated → Type 0
AreCounted missing = Unit
AreCounted broken = Unit
AreCounted (migrated stats) = stats.total ≡ counted stats

abbrev Adds : RenameSlugSummary → Type 0
Adds summary = summary.total ≡ summary.updated + summary.skipped + summary.failed

module _ {W J : Type 0} (raw : RawJson J) (env : Environment W) (dry_run : Bool) where
  module _ (kv : KeyValue W (Object J)) (job : RenameSlug) where
    pub process_keys-counted :
        (keys : List String) (stats : BucketStats) (w : W)
        → let after = (process_keys raw env dry_run kv job keys stats w).0 in
          (counted after ≡ counted stats + length keys)
          × (after.total ≡ stats.total)
          × (stats.failed ≤ after.failed)
    unfolding process_keys
    process_keys-counted [] stats w = omega arith
    process_keys-counted (key ∷ keys) stats w =
        let out = process_kv_record raw env kv job key dry_run w in
        omega (
          arith,
          count_outcome-counted out.0 stats,
          process_keys-counted keys (count_outcome out.0 stats) out.1,
        )

    migrate_keys-AreCounted :
        (reply : Reply (List String)) (w : W)
        → AreCounted (migrate_keys raw env dry_run kv job reply w).0
    unfolding migrate_keys
    migrate_keys-AreCounted (failed c) w = tt
    migrate_keys-AreCounted (done keys) w =
        let start : BucketStats = record {
          total = length (record_keys keys);
          updated = 0;
          skipped = 0;
          failed = 0;
        } in
        omega (arith, process_keys-counted (record_keys keys) start w)

  migrate_opened-AreCounted :
      (o : Opened W J) (job : RenameSlug) (w : W)
      → AreCounted (migrate_opened raw env dry_run o job w).0
  unfolding migrate_opened
  migrate_opened-AreCounted bucket_not_found job w = tt
  migrate_opened-AreCounted open_failed job w = tt
  migrate_opened-AreCounted (opened kv) job w = migrate_keys-AreCounted kv job (kv.list_keys w) w

  module _ (open_bucket : String → Opened W J) (old_slug new_slug : String) where
    migrate_bucket-AreCounted :
        (bucket : String) (w : W)
        → AreCounted (migrate_bucket raw env dry_run open_bucket old_slug new_slug bucket w).0
    unfolding migrate_bucket
    migrate_bucket-AreCounted bucket w =
        migrate_opened-AreCounted (open_bucket bucket)
          (job_for raw env dry_run open_bucket old_slug new_slug bucket) w

    add_bucket-Adds :
        (result : Migrated) (summary : RenameSlugSummary)
        → AreCounted result
        → Adds summary
        → Adds (add_bucket raw env dry_run open_bucket old_slug new_slug result summary)
    unfolding add_bucket
    add_bucket-Adds missing summary h k = k
    add_bucket-Adds broken summary h k = k
    add_bucket-Adds (migrated stats) summary h k = omega arith

    migrate_buckets-Adds :
        (buckets : List String) (summary : RenameSlugSummary) (w : W)
        → Adds summary
        → Adds (migrate_buckets raw env dry_run open_bucket old_slug new_slug buckets summary w).0
    unfolding migrate_buckets
    migrate_buckets-Adds [] summary w h = h
    migrate_buckets-Adds (bucket ∷ buckets) summary w h =
        let result = migrate_bucket raw env dry_run open_bucket old_slug new_slug bucket w in
        migrate_buckets-Adds buckets
          (add_bucket raw env dry_run open_bucket old_slug new_slug result.0 summary) result.1
          (add_bucket-Adds result.0 summary (migrate_bucket-AreCounted bucket w) h)

    -- Whatever the stores answer, the total in the summary of a run over the buckets is the number of
    -- records updated, skipped and failed.
    pub run_nats-counted :
        (buckets : List String) (w : W)
        → let summary = (run_nats raw env dry_run open_bucket old_slug new_slug buckets w).0 in
          summary.total ≡ summary.updated + summary.skipped + summary.failed
    unfolding run_nats
    run_nats-counted buckets w =
        migrate_buckets-Adds buckets
          (record { total = 0; updated = 0; skipped = 0; failed = 0; errors = 0 }) w refl
