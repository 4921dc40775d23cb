-- ===== src/Cli/Buckets/Completion.antt =====
-- On the records that migrateBucket of cmd/project-cli/commands/sync/rename_project_slug_runner.go
-- leaves behind, with no other client at work.
use lfx_v2_project_service.Prelude.{
  ◌<◌, String, ◌≡◌, ◌⊎◌, ◌∙◌, ap, sym, refl, inl, inr, Bool, true, false, ◌==◌, Option, none, some,
  List, [], ◌∷◌, length, arith, eq_iff, Bool-cases,
}
use lfx_v2_project_service.Nats.Kv.{json, Entry, Reply, done, failed, KeyValue}
use lfx_v2_project_service.Prelude.Text.{has_prefix-sprintf}
use lfx_v2_project_service.Nats.Projects.{slug_key}
use lfx_v2_project_service.Nats.Laws.{entry, is_listed, KeyValueLaws}
use lfx_v2_project_service.Cli.Records.{
  Object, RawJson, RecordError, slug_mismatch, Environment, RenameSlug, Outcome, process_kv_record,
}
use lfx_v2_project_service.Cli.Records.Renaming.{IsSound}
use lfx_v2_project_service.Cli.Records.Quiet.{
  IsQuiet, IsRenamed, process_kv_record-other, process_kv_record-IsSettled,
}
use lfx_v2_project_service.Cli.Buckets.{
  BucketStats, migrated, is_record_key, record_keys, count_outcome, process_keys, migrate_keys,
}
use lfx_v2_project_service.Cli.Buckets.Counts.{process_keys-counted}

outcome_cases :
    (o : Outcome) (stats : BucketStats)
    → (o ≡ none) ⊎ ((o ≡ some slug_mismatch) ⊎ (stats.failed < (count_outcome o stats).failed))
unfolding count_outcome
outcome_cases none stats = inl refl
outcome_cases (some slug_mismatch) stats = inr (inl refl)
outcome_cases (some (RecordError.get_failed c)) stats = inr (inr (omega arith))
outcome_cases (some RecordError.unmarshal_failed) stats = inr (inr (omega arith))
outcome_cases (some (RecordError.update_failed c)) stats = inr (inr (omega arith))
outcome_cases (some RecordError.context_done) stats = inr (inr (omega arith))

slug_key-index : (slug : String) → is_record_key (slug_key slug) ≡ false
unfolding is_record_key
slug_key-index slug = ground (arith, has_prefix-sprintf "slug/" slug)

is_listed-record_keys :
    (keys : List String) (k : String)
    → is_record_key k ≡ true
    → is_listed k (record_keys keys) ≡ is_listed k keys
unfolding record_keys is_listed
is_listed-record_keys [] k h = refl
is_listed-record_keys (key ∷ keys) k h = elim (Bool-cases (is_record_key key)) [
  | inl yes_record ↦ rw yes_record (ground (arith, is_listed-record_keys keys k h))
  | inr other ↦ rw other (ground (arith, is_listed-record_keys keys k h, eq_iff key k))
]

unlisted :
    (keys : List String) (k : String)
    → is_record_key k ≡ false
    → is_listed k (record_keys keys) ≡ false
unfolding record_keys is_listed
unlisted [] k h = refl
unlisted (key ∷ keys) k h = elim (Bool-cases (is_record_key key)) [
  | inl yes_record ↦
      let other : (key == k) ≡ false = elim (Bool-cases (key == k)) [
        | inl same ↦ absurd (cc (ap is_record_key ((eq_iff key k).0 same), yes_record, h))
        | inr ne ↦ ne
      ] in
      rw (yes_record, other) (unlisted keys k h)
  | inr other ↦ rw other (unlisted keys k h)
]

module _ {J S : Type 0} (raw : RawJson J) (env : Environment S) (kv : KeyValue S (Object J))
    (job : RenameSlug) (peek : S → String → Option (Entry (Object J))) (laws : KeyValueLaws kv peek)
    (quiet : IsQuiet env) where
  process_keys-other :
      (dry_run : Bool) (keys : List String) (stats : BucketStats) (w : S) (j : String)
      → is_listed j keys ≡ false
      → peek (process_keys raw env dry_run kv job keys stats w).1 j ≡ peek w j
  unfolding process_keys is_listed
  process_keys-other dry_run [] stats w j h = refl
  process_keys-other dry_run (key ∷ keys) stats w j h =
      let out = process_kv_record raw env kv job key dry_run w in
      process_keys-other dry_run keys (count_outcome out.0 stats) out.1 j (ground arith)
      ∙ process_kv_record-other raw env kv job peek laws quiet dry_run key j w
          (ground (arith, eq_iff key j))

  module _ (sound : IsSound raw job) where
    abbrev Clean : String → S → Type 0
    Clean = IsRenamed raw env kv job peek laws quiet

    step-Clean :
        (key k : String) (stats : BucketStats) (w : S)
        → let out = process_kv_record raw env kv job key false w in
          ((count_outcome out.0 stats).failed ≡ 0) → (key ≡ k) ⊎ Clean k w → Clean k out.1
    step-Clean key k stats w good start =
        let out = process_kv_record raw env kv job key false w in
        let settled = process_kv_record-IsSettled raw env kv job peek laws quiet sound key w in
        elim (Bool-cases (key == k)) [
          | inl same ↦ rw (← (eq_iff key k).0 same) (elim (outcome_cases out.0 stats) [
            | inl updated ↦ settled.0 updated
            | inr (inl skipped) ↦ settled.1 skipped
            | inr (inr bad) ↦ absurd (omega arith)
          ])
          | inr other ↦ elim start [
            | inl e ↦ absurd (cc ((eq_iff key k).1 e, other))
            | inr clean ↦ λ found revision stored.
                let kept =
                  process_kv_record-other raw env kv job peek laws quiet false key k w
                    (λ e. cc ((eq_iff key k).1 e, other)) in
                clean found revision (sym kept ∙ stored)
          ]
        ]

    process_keys-Clean :
        (keys : List String) (stats : BucketStats) (w : S) (k : String)
        → (process_keys raw env false kv job keys stats w).0.failed ≡ 0
        → (is_listed k keys ≡ true) ⊎ Clean k w
        → Clean k (process_keys raw env false kv job keys stats w).1
    unfolding process_keys is_listed
    process_keys-Clean [] stats w k good (inl listed) = absurd (cc listed)
    process_keys-Clean [] stats w k good (inr clean) = clean
    process_keys-Clean (key ∷ keys) stats w k good start =
        let out = process_kv_record raw env kv job key false w in
        let stats' = count_outcome out.0 stats in
        let mono = process_keys-counted raw env false kv job keys stats' out.1 in
        let fine : stats'.failed ≡ 0 = omega arith in
        process_keys-Clean keys stats' out.1 k good (elim start [
          | inr clean ↦ inr (step-Clean key k stats w fine (inr clean))
          | inl listed ↦ elim (Bool-cases (key == k)) [
            | inl same ↦ inr (step-Clean key k stats w fine (inl ((eq_iff key k).0 same)))
            | inr other ↦ inl (let l = rw other at listed in l)
          ]
        ])

    -- With no other client at work, after a bucket whose keys can be listed has been migrated with no
    -- failure, no record of it holds the old slug in a slug field: every key that is no index
    -- key holds a renamed record, one that needs no renaming, or no record.
    pub migrate_keys_complete :
        (w : S) (keys : List String) (stats : BucketStats) (k : String)
        → kv.list_keys w ≡ done keys
        → (migrate_keys raw env false kv job (kv.list_keys w) w).0 ≡ migrated stats
        → stats.failed ≡ 0
        → is_record_key k ≡ true
        → IsRenamed raw env kv job peek laws quiet k
            (migrate_keys raw env false kv job (kv.list_keys w) w).1
    migrate_keys_complete w keys stats k listed = rw listed (
        unfold migrate_keys in
        λ result good rk.
          let start : BucketStats = record {
            total = length (record_keys keys);
            updated = 0;
            skipped = 0;
            failed = 0;
          } in
          let out = process_keys raw env false kv job (record_keys keys) start w in
          let fine : out.0.failed ≡ 0 = cc in
          elim (Bool-cases (is_listed k keys)) [
            | inl inside ↦
                process_keys-Clean (record_keys keys) start w k fine
                  (inl (is_listed-record_keys keys k rk ∙ inside))
            | inr outside ↦ λ found revision stored.
                let kept =
                  process_keys-other false (record_keys keys) start w k
                    (is_listed-record_keys keys k rk ∙ outside) in
                let there =
                  laws.list_complete w keys k (entry (json found) revision) listed
                    (sym kept ∙ stored) in
                absurd (cc (there, outside))
          ])

  -- With no other client at work, the migration of a bucket, dry or not and whatever comes of it,
  -- leaves every slug key as it was: the key of the old slug goes on naming the project, and the
  -- key of the new slug is not written.
  pub migrate_keys-slug_keys :
      (dry_run : Bool) (reply : Reply (List String)) (w : S) (slug : String)
      → peek (migrate_keys raw env dry_run kv job reply w).1 (slug_key slug)
        ≡ peek w (slug_key slug)
  unfolding migrate_keys
  migrate_keys-slug_keys dry_run (failed c) w slug = refl
  migrate_keys-slug_keys dry_run (done keys) w slug =
      process_keys-other dry_run (record_keys keys) _ w (slug_key slug)
        (unlisted keys (slug_key slug) (slug_key-index slug))
