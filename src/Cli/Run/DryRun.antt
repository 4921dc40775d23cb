-- ===== src/Cli/Run/DryRun.antt =====
-- On dry runs, and on the order of the stores, in Run of
-- cmd/project-cli/commands/sync/rename_project_slug_runner.go.
use lfx_v2_project_service.Prelude.{
  String, ◌≡◌, ◌≢◌, ◌⊎◌, ◌∙◌, refl, inl, inr, true, false, Option, none, some, List, [], ◌∷◌, arith,
  Bool-cases,
}
use lfx_v2_project_service.Nats.Kv.{Reply, done, failed, KeyValue}
use lfx_v2_project_service.Cli.Records.{
  Object, RawJson, Fetched, refused, fetched, Environment, RenameSlug, fetch, process_fetched,
  process_kv_record,
}
use lfx_v2_project_service.Cli.Buckets.{
  Opened, opened, bucket_not_found, open_failed, BucketStats, RenameSlugSummary, job_for,
  record_keys, count_outcome, process_keys, migrate_keys, migrate_opened, migrate_bucket,
  add_bucket, migrate_buckets, run_nats,
}
use lfx_v2_project_service.Cli.Search.{SearchClient, run_open_search}
use lfx_v2_project_service.Cli.Run.{
  RenameSlugOptions, open_search_failed, Stores, buckets_of, are_valid, run_nats_half, run_stores,
  run,
}

module _ {W J : Type 0} (raw : RawJson J) (env : Environment W) where
  module _ (kv : KeyValue W (Object J)) (job : RenameSlug) where
    process_fetched-dry_run :
        (key : String) (f : Fetched J) (w : W) → (process_fetched raw env kv job key true f w).1 ≡ w
    unfolding process_fetched
    process_fetched-dry_run key (refused e) w = refl
    process_fetched-dry_run key (fetched found revision) w = refl

    process_keys-dry_run :
        (keys : List String) (stats : BucketStats) (w : W)
        → (process_keys raw env true kv job keys stats w).1 ≡ w
    unfolding process_keys process_kv_record
    process_keys-dry_run [] stats w = refl
    process_keys-dry_run (key ∷ keys) stats w =
        let out = process_kv_record raw env kv job key true w in
        process_keys-dry_run keys (count_outcome out.0 stats) out.1
        ∙ process_fetched-dry_run key (fetch raw env kv job key w) w

    migrate_keys-dry_run :
        (reply : Reply (List String)) (w : W) → (migrate_keys raw env true kv job reply w).1 ≡ w
    unfolding migrate_keys
    migrate_keys-dry_run (failed c) w = refl
    migrate_keys-dry_run (done keys) w = process_keys-dry_run (record_keys keys) _ w

  migrate_opened-dry_run :
      (o : Opened W J) (job : RenameSlug) (w : W) → (migrate_opened raw env true o job w).1 ≡ w
  unfolding migrate_opened
  migrate_opened-dry_run bucket_not_found job w = refl
  migrate_opened-dry_run open_failed job w = refl
  migrate_opened-dry_run (opened kv) job w = migrate_keys-dry_run kv job (kv.list_keys w) w

  module _ (open_bucket : String → Opened W J) (old_slug new_slug : String) where
    migrate_bucket-dry_run :
        (bucket : String) (w : W)
        → (migrate_bucket raw env true open_bucket old_slug new_slug bucket w).1 ≡ w
    unfolding migrate_bucket
    migrate_bucket-dry_run bucket w =
        migrate_opened-dry_run (open_bucket bucket)
          (job_for raw env true open_bucket old_slug new_slug bucket) w

    migrate_buckets-dry_run :
        (buckets : List String) (summary : RenameSlugSummary) (w : W)
        → (migrate_buckets raw env true open_bucket old_slug new_slug buckets summary w).1 ≡ w
    unfolding migrate_buckets
    migrate_buckets-dry_run [] summary w = refl
    migrate_buckets-dry_run (bucket ∷ buckets) summary w =
        let out = migrate_bucket raw env true open_bucket old_slug new_slug bucket w in
        migrate_buckets-dry_run buckets
          (add_bucket raw env true open_bucket old_slug new_slug out.0 summary) out.1
        ∙ migrate_bucket-dry_run bucket w

    run_nats-dry_run :
        (buckets : List String) (w : W)
        → (run_nats raw env true open_bucket old_slug new_slug buckets w).2 ≡ w
    unfolding run_nats
    run_nats-dry_run buckets w = migrate_buckets-dry_run buckets _ w

module _ {O W J : Type 0} (raw : RawJson J) (env : Environment W) where
  module _ (open_bucket : String → Opened W J) (client : SearchClient O) (opts : RenameSlugOptions)
      (stores : Stores O W) where
    run_stores-dry_run :
        opts.dry_run ≡ true → (run_stores raw env open_bucket opts client stores).1 ≡ stores
    unfolding run_stores run_nats_half run_open_search
    run_stores-dry_run dry = ground (
      arith,
      run_nats-dry_run raw env open_bucket opts.old_slug opts.new_slug
          (buckets_of opts.nats_buckets) stores.nats,
    )

    -- If the OpenSearch half fails, the run reports that and no bucket is touched.
    run_stores-open_search_first :
        (run_open_search client opts.old_slug opts.new_slug opts.dry_run stores.open_search).1
          ≡ false
        → ((run_stores raw env open_bucket opts client stores).0 ≡ some open_search_failed)
          × ((run_stores raw env open_bucket opts client stores).1.nats ≡ stores.nats)
    unfolding run_stores
    run_stores-open_search_first h = rw h (refl, refl)

  -- A dry run writes nothing, neither to OpenSearch nor to any bucket, whatever the options, the
  -- clients and their answers are.
  pub run-dry_run :
      (client : Option (SearchClient O)) (jet_stream : Option (String → Opened W J))
      (opts : RenameSlugOptions) (stores : Stores O W)
      → opts.dry_run ≡ true
      → (run raw env client jet_stream opts stores).1 ≡ stores
  unfolding run
  run-dry_run none jet_stream opts stores dry = refl
  run-dry_run (some client) none opts stores dry = refl
  run-dry_run (some client) (some open_bucket) opts stores dry =
      elim (Bool-cases (are_valid opts)) [
        | inl fine ↦ rw fine (run_stores-dry_run open_bucket client opts stores dry)
        | inr bad ↦ rw bad refl
      ]

  -- A run with invalid options, and one whose OpenSearch half fails, fails and touches no bucket.
  pub run-refused :
      (client : SearchClient O) (jet_stream : Option (String → Opened W J))
      (opts : RenameSlugOptions) (stores : Stores O W)
      → (are_valid opts ≡ false)
        ⊎ ((run_open_search client opts.old_slug opts.new_slug opts.dry_run stores.open_search).1
            ≡ false)
      → ((run raw env (some client) jet_stream opts stores).0 ≢ none)
        × ((run raw env (some client) jet_stream opts stores).1.nats ≡ stores.nats)
  unfolding run
  run-refused client none opts stores why = (λ h. cc h, refl)
  run-refused client (some open_bucket) opts stores why = elim (Bool-cases (are_valid opts)) [
    | inr bad ↦ rw bad (λ h. cc h, refl)
    | inl fine ↦ elim why [
      | inl bad ↦ absurd (cc (fine, bad))
      | inr failed_first ↦
          let first = run_stores-open_search_first open_bucket client opts stores failed_first in
          rw (fine, first.0) (λ h. cc h, first.1)
    ]
  ]
