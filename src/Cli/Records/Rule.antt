-- ===== src/Cli/Records/Rule.antt =====
-- The rules by which the other modules go through processKVRecord of
-- cmd/project-cli/commands/sync/rename_project_slug_runner.go.
use lfx_v2_project_service.Prelude.{
  ℕ, zero, suc, ◌+◌, ◌*◌, String, ◌≡◌, refl, Bool, true, false, none, some,
}
use lfx_v2_project_service.Domain.Error.{KvError}
use lfx_v2_project_service.Nats.Kv.{Reply, done, failed, KeyValue}
use lfx_v2_project_service.Cli.Records.{
  Object, RawJson, Fetched, refused, fetched, RecordError, update_failed, context_done, Environment,
  RenameSlug, Outcome, fetch, update_record, after_update, update_fetched, after_sleep, retry,
  process_fetched, process_kv_record,
}

module _ {J S : Type 0} (raw : RawJson J) (env : Environment S) (kv : KeyValue S (Object J))
    (job : RenameSlug) (key : String) where
  module _ (Q : Outcome × S → Type 0)
      (at_update : (attempt : ℕ) (b : S) (record_fields : Object J) (revision r : ℕ)
        → fetch raw env kv job key b ≡ fetched record_fields revision
        → (update_record raw env kv job key attempt record_fields revision b).0 ≡ done r
        → Q (none, (update_record raw env kv job key attempt record_fields revision b).1))
      (at_refusal : (b : S) (e : RecordError)
        → fetch raw env kv job key b ≡ refused e
        → Q (some e, b))
      (at_failure : (b : S) (c : KvError) → Q (some (update_failed c), b))
      (at_end : (b : S) → Q (some context_done, b)) where
    after_update-rule :
        (again : KvError → S → Outcome × S) (reply : Reply ℕ × S)
        → ((c : KvError) (b : S) → Q (again c b))
        → ((r : ℕ) → reply.0 ≡ done r → Q (none, reply.1))
        → Q (after_update raw env kv job key again reply)
    unfolding after_update
    after_update-rule again (done r, b) hagain hdone = hdone r refl
    after_update-rule again (failed c, b) hagain hdone = hagain c b

    update_fetched-rule :
        (attempt : ℕ) (again : KvError → S → Outcome × S) (f : Fetched J) (b : S)
        → fetch raw env kv job key b ≡ f
        → ((c : KvError) (b : S) → Q (again c b))
        → Q (update_fetched raw env kv job key attempt again f b)
    unfolding update_fetched
    update_fetched-rule attempt again (refused e) b hf hagain = at_refusal b e hf
    update_fetched-rule attempt again (fetched record_fields revision) b hf hagain =
        after_update-rule again (update_record raw env kv job key attempt record_fields revision b)
          hagain (λ r. at_update attempt b record_fields revision r hf)

    after_sleep-rule :
        (next : S → Outcome × S) (slept : Bool × S)
        → ((b : S) → Q (next b))
        → Q (after_sleep raw env kv job key next slept)
    unfolding after_sleep
    after_sleep-rule next (true, b) hnext = at_end b
    after_sleep-rule next (false, b) hnext = hnext b

    retry-rule :
        (left attempt : ℕ) (c : KvError) (b : S) → Q (retry raw env kv job key left attempt c b)
    unfolding retry
    retry-rule zero attempt c b = at_failure b c
    retry-rule (suc left) attempt c b =
        let again = retry raw env kv job key left (attempt + 1) in
        after_sleep-rule
          (λ b'.
            update_fetched raw env kv job key (attempt + 1) again (fetch raw env kv job key b') b')
          (env.sleep_with_context (attempt * 100) b)
          λ b'.
            update_fetched-rule (attempt + 1) again (fetch raw env kv job key b') b' refl
              (retry-rule left (attempt + 1))

    process_fetched-rule :
        (f : Fetched J) (b : S)
        → fetch raw env kv job key b ≡ f
        → Q (process_fetched raw env kv job key false f b)
    unfolding process_fetched
    process_fetched-rule (refused e) b hf = at_refusal b e hf
    process_fetched-rule (fetched record_fields revision) b hf =
        after_update-rule (retry raw env kv job key 2 1)
          (update_record raw env kv job key 1 record_fields revision b) (retry-rule 2 1)
          (λ r. at_update 1 b record_fields revision r hf)

    -- What holds at every way out of the attempts holds of the outcome.
    pub process_kv_record-rule : (b : S) → Q (process_kv_record raw env kv job key false b)
    unfolding process_kv_record
    process_kv_record-rule b = process_fetched-rule (fetch raw env kv job key b) b refl

  module _ (P : S → Type 0)
      (at_update : (attempt : ℕ) (b : S) (record_fields : Object J) (revision : ℕ)
        → P b
        → P (update_record raw env kv job key attempt record_fields revision b).1)
      (at_sleep : (milliseconds : ℕ) (b : S)
        → P b
        → P (env.sleep_with_context milliseconds b).1) where
    after_update-keeps :
        (again : KvError → S → Outcome × S) (reply : Reply ℕ × S)
        → ((c : KvError) (b : S) → P b → P (again c b).1)
        → P reply.1
        → P (after_update raw env kv job key again reply).1
    unfolding after_update
    after_update-keeps again (done r, b) hagain h = h
    after_update-keeps again (failed c, b) hagain h = hagain c b h

    update_fetched-keeps :
        (attempt : ℕ) (again : KvError → S → Outcome × S) (f : Fetched J) (b : S)
        → ((c : KvError) (b : S) → P b → P (again c b).1)
        → P b
        → P (update_fetched raw env kv job key attempt again f b).1
    unfolding update_fetched
    update_fetched-keeps attempt again (refused e) b hagain h = h
    update_fetched-keeps attempt again (fetched record_fields revision) b hagain h =
        after_update-keeps again (update_record raw env kv job key attempt record_fields revision b)
          hagain (at_update attempt b record_fields revision h)

    after_sleep-keeps :
        (next : S → Outcome × S) (slept : Bool × S)
        → ((b : S) → P b → P (next b).1)
        → P slept.1
        → P (after_sleep raw env kv job key next slept).1
    unfolding after_sleep
    after_sleep-keeps next (true, b) hnext h = h
    after_sleep-keeps next (false, b) hnext h = hnext b h

    retry-keeps :
        (left attempt : ℕ) (c : KvError) (b : S)
        → P b
        → P (retry raw env kv job key left attempt c b).1
    unfolding retry
    retry-keeps zero attempt c b h = h
    retry-keeps (suc left) attempt c b h =
        let again = retry raw env kv job key left (attempt + 1) in
        after_sleep-keeps
          (λ b'.
            update_fetched raw env kv job key (attempt + 1) again (fetch raw env kv job key b') b')
          (env.sleep_with_context (attempt * 100) b)
          (λ b'.
            update_fetched-keeps (attempt + 1) again (fetch raw env kv job key b') b'
              (retry-keeps left (attempt + 1)))
          (at_sleep (attempt * 100) b h)

    process_fetched-keeps :
        (dry_run : Bool) (f : Fetched J) (b : S)
        → P b
        → P (process_fetched raw env kv job key dry_run f b).1
    unfolding process_fetched
    process_fetched-keeps dry_run (refused e) b h = h
    process_fetched-keeps true (fetched record_fields revision) b h = h
    process_fetched-keeps false (fetched record_fields revision) b h =
        after_update-keeps (retry raw env kv job key 2 1)
          (update_record raw env kv job key 1 record_fields revision b) (retry-keeps 2 1)
          (at_update 1 b record_fields revision h)

    -- What an update and a sleep keep, the whole of the attempts keeps.
    pub process_kv_record-keeps :
        (dry_run : Bool) (b : S) → P b → P (process_kv_record raw env kv job key dry_run b).1
    unfolding process_kv_record
    process_kv_record-keeps dry_run b h =
        process_fetched-keeps dry_run (fetch raw env kv job key b) b h
