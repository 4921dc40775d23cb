-- ===== src/Cli/Records.antt =====
-- processKVRecord of cmd/project-cli/commands/sync/rename_project_slug_runner.go: the slug fields of
-- one record. A record is a JSON object, `map[string]json.RawMessage`: each field with its raw value.
-- What other clients of the bucket do while the tool works is an environment: they may act between
-- the read and the write of an attempt, and while the tool sleeps before the next one.
pub mod Rule
pub mod Renaming
pub mod Updates
pub mod Quiet
use lfx_v2_project_service.Prelude.{
  ℕ, zero, suc, ◌+◌, ◌*◌, String, Bool, true, false, Option, none, some, List, [], ◌∷◌, ◌||◌, ◌==◌,
  if◌then◌else◌,
}
use lfx_v2_project_service.Prelude.Assoc.{Pair, lookup, insert}
use lfx_v2_project_service.Domain.Error.{KvError}
use lfx_v2_project_service.Nats.Kv.{Value, json, plain, Entry, Reply, done, failed, KeyValue}

abbrev pub Object : Type 0 → Type 0
Object J = List (Pair J)

-- json.Unmarshal of a raw value into a string, json.Marshal of a string, and the marshalled time of
-- the run.
pub record RawJson (J : Type 0) : Type 0 where
  pub unmarshal_string : J → Option String
  pub marshal_string : String → J
  pub marshalled_now : J

-- The error of a record. The code words the errors of a re-fetch in its own way.
pub data RecordError : Type 0 where
  slug_mismatch : RecordError
  get_failed : KvError → RecordError
  unmarshal_failed : RecordError
  update_failed : KvError → RecordError
  context_done : RecordError

pub data Fetched (J : Type 0) : Type 0 where
  refused : RecordError → Fetched J
  fetched : Object J → (revision : ℕ) → Fetched J

pub record Environment (S : Type 0) : Type 0 where
  pub others : (attempt : ℕ) → S → S
  -- sleepWithContext: whether the context ended first
  pub sleep_with_context : (milliseconds : ℕ) → S → Bool × S

pub record RenameSlug : Type 0 where
  pub fields : List String
  pub old_slug : String
  pub new_slug : String

-- The return value, nil where the record was renamed.
abbrev pub Outcome : Type 0
Outcome = Option RecordError

module _ {J : Type 0} (raw : RawJson J) where
  -- `val, ok := raw[field]; ok && json.Unmarshal(val, &s) == nil && s == oldSlug`
  unfoldable pub holds : String → Option J → Bool
  holds old_slug none = false
  holds old_slug (some val) = elim (raw.unmarshal_string val) [
    | none ↦ false
    | some s ↦ s == old_slug
  ]

  unfoldable pub any_match : String → List String → Object J → Bool
  unfolding holds lookup
  any_match old_slug [] record_fields = false
  any_match old_slug (field ∷ fields) record_fields =
      holds old_slug (lookup field record_fields) || any_match old_slug fields record_fields

  -- the loop that writes the new slug
  unfoldable pub set_slugs : (old_slug new_slug : String) → List String → Object J → Object J
  unfolding holds lookup insert
  set_slugs old_slug new_slug [] record_fields = record_fields
  set_slugs old_slug new_slug (field ∷ fields) record_fields = set_slugs old_slug new_slug fields (
      if holds old_slug (lookup field record_fields)
      then insert field (raw.marshal_string new_slug) record_fields
      else record_fields)

  unfoldable pub touch : Object J → Object J
  unfolding lookup insert
  touch record_fields = elim (lookup "updated_at" record_fields) [
    | none ↦ record_fields
    | some t ↦ insert "updated_at" raw.marshalled_now record_fields
  ]

  unfoldable pub renamed : RenameSlug → Object J → Object J
  unfolding set_slugs touch
  renamed job record_fields = touch (set_slugs job.old_slug job.new_slug job.fields record_fields)

  unfoldable pub parse_entry : RenameSlug → Reply (Entry (Object J)) → Fetched J
  parse_entry job (failed c) = refused (get_failed c)
  parse_entry job (done entry) = elim entry.value [
    | plain s ↦ refused unmarshal_failed
    | json record_fields ↦
        if any_match job.old_slug job.fields record_fields
        then fetched record_fields entry.revision
        else refused slug_mismatch
  ]

  module _ {S : Type 0} (env : Environment S) (kv : KeyValue S (Object J)) (job : RenameSlug)
      (key : String) where
    unfoldable pub fetch : S → Fetched J
    unfolding parse_entry any_match
    fetch b = parse_entry job (kv.get b key)

    -- One attempt: the update against the revision that was read.
    unfoldable pub update_record : ℕ → Object J → ℕ → S → Reply ℕ × S
    unfolding renamed
    update_record attempt record_fields revision b =
        kv.update key (json (renamed job record_fields)) revision (env.others attempt b)

    -- `updateErr == nil` ends the loop.
    unfoldable pub after_update : (KvError → S → Outcome × S) → Reply ℕ × S → Outcome × S
    after_update again (done r, b) = (none, b)
    after_update again (failed c, b) = again c b

    unfoldable pub update_fetched : ℕ → (KvError → S → Outcome × S) → Fetched J → S → Outcome × S
    update_fetched attempt again (refused e) b = (some e, b)
    update_fetched attempt again (fetched record_fields revision) b =
        after_update again (update_record attempt record_fields revision b)

    -- `if err := sleepWithContext(…); err != nil { return err }`
    unfoldable pub after_sleep : (S → Outcome × S) → Bool × S → Outcome × S
    after_sleep next (true, b) = (some context_done, b)
    after_sleep next (false, b) = next b

    -- The attempts that are left after `attempt` has failed.
    unfoldable pub retry : ℕ → (attempt : ℕ) → KvError → S → Outcome × S
    unfolding fetch update_fetched after_sleep after_update
    retry zero attempt c b = (some (update_failed c), b)
    retry (suc left) attempt c b =
        let next = update_fetched (attempt + 1) (retry left (attempt + 1)) in
        after_sleep (λ b'. next (fetch b') b') (env.sleep_with_context (attempt * 100) b)

    unfoldable pub process_fetched : (dry_run : Bool) → Fetched J → S → Outcome × S
    unfolding retry after_update update_record
    process_fetched dry_run (refused e) b = (some e, b)
    process_fetched true (fetched record_fields revision) b = (none, b)
    process_fetched false (fetched record_fields revision) b =
        after_update (retry 2 1) (update_record 1 record_fields revision b)

    unfoldable pub process_kv_record : (dry_run : Bool) → S → Outcome × S
    unfolding fetch process_fetched
    process_kv_record dry_run b = process_fetched dry_run (fetch b) b
