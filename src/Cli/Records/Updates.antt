-- ===== src/Cli/Records/Updates.antt =====
-- On what processKVRecord of cmd/project-cli/commands/sync/rename_project_slug_runner.go overwrites.
use lfx_v2_project_service.Prelude.{
  ℕ, String, ◌≡◌, refl, sym, ap, ◌∙◌, inl, inr, true, false, Option, none, some, arith, Bool-cases,
  ℕ_discrete,
}
use lfx_v2_project_service.Nats.Kv.{Value, json, plain, Entry, done, failed, KeyValue}
use lfx_v2_project_service.Nats.Laws.{entry, KeyValueLaws, Reply-cases}
use lfx_v2_project_service.Cli.Records.Rule.{process_kv_record-rule}
use lfx_v2_project_service.Cli.Records.{
  Object, RawJson, fetched, Environment, RenameSlug, any_match, renamed, parse_entry, fetch,
  update_record, process_kv_record,
}

module _ {J S : Type 0} (raw : RawJson J) (env : Environment S) (kv : KeyValue S (Object J))
    (job : RenameSlug) (key : String) (peek : S → String → Option (Entry (Object J)))
    (laws : KeyValueLaws kv peek) where
  -- The last call was an update of a record that held the old slug, and that stood under the key
  -- when the update was made.
  abbrev pub Overwrote : S → Type 0
  Overwrote final =
      (before : S) × (record_fields : Object J) × (revision : ℕ) × (peek before key
        ≡ some (entry (json record_fields) revision))
      × (any_match raw job.old_slug job.fields record_fields ≡ true)
      × (final ≡ (kv.update key (json (renamed raw job record_fields)) revision before).1)
      × ((r : ℕ) × (peek final key ≡ some (entry (json (renamed raw job record_fields)) r)))

  -- Other clients may write the record, each time with a new revision, and do not delete it.
  abbrev pub OthersWrite : Type 0
  OthersWrite =
      (attempt : ℕ) (b : S) (e : Entry (Object J))
      → peek b key ≡ some e
      → (e' : Entry (Object J)) × (peek (env.others attempt b) key ≡ some e')
        × (e'.revision ≡ e.revision → e' ≡ e)

  value_fetched :
      (v : Value (Object J)) (stored : ℕ) (record_fields : Object J) (revision : ℕ)
      → parse_entry raw job (done (entry v stored)) ≡ fetched record_fields revision
      → (v ≡ json record_fields)
        × (stored ≡ revision)
        × (any_match raw job.old_slug job.fields record_fields ≡ true)
  unfolding parse_entry
  value_fetched (plain s) stored record_fields revision h = cc
  value_fetched (json found) stored record_fields revision h =
      elim (Bool-cases (any_match raw job.old_slug job.fields found)) [
        | inl matches ↦ ground arith
        | inr other ↦ ground arith
      ]

  pub fetch_stored :
      (b : S) (record_fields : Object J) (revision : ℕ)
      → fetch raw env kv job key b ≡ fetched record_fields revision
      → (peek b key ≡ some (entry (json record_fields) revision))
        × (any_match raw job.old_slug job.fields record_fields ≡ true)
  unfolding fetch
  fetch_stored b record_fields revision h = elim (Reply-cases (kv.get b key)) [
    | inl (e, got) ↦
        let parts =
          value_fetched e.value e.revision record_fields revision
            (ap (parse_entry raw job) (sym got) ∙ h) in
        (laws.get_done b key e got ∙ ap some (ground (arith, parts)), parts.2)
    | inr (c, lost) ↦ absurd (
        let e : parse_entry raw job (failed c) ≡ fetched record_fields revision =
          ap (parse_entry raw job) (sym lost) ∙ h in
        unfold parse_entry in cc e)
  ]

  module _ (others_write : OthersWrite) where
    pub update_record-done :
        (attempt : ℕ) (b : S) (record_fields : Object J) (revision r : ℕ)
        → fetch raw env kv job key b ≡ fetched record_fields revision
        → (update_record raw env kv job key attempt record_fields revision b).0 ≡ done r
        → Overwrote (update_record raw env kv job key attempt record_fields revision b).1
    unfolding update_record
    update_record-done attempt b record_fields revision r h ok =
        let stored = fetch_stored b record_fields revision h in
        let (e', still, same) =
          others_write attempt b (entry (json record_fields) revision) stored.0 in
        let before = env.others attempt b in
        let v = json (renamed raw job record_fields) in
        elim (ℕ_discrete e'.revision revision) [
          | yes current ↦ (
            before,
            record_fields,
            revision,
            still ∙ ap some (same current),
            stored.1,
            refl,
            (r, laws.update_done key v revision before r ok),
          )
          | no stale ↦
              let refusal = laws.update_stale key v revision before e' still stale in
              absurd (cc (refusal.1, ok))
        ]

    -- Beside other clients that may write the record between the tool's read and its write, and
    -- while it waits, each time with a new revision, a record that processKVRecord reports as
    -- renamed was written once more over exactly the record from which the new one was made: what
    -- the others had written is not lost.
    pub process_kv_record-Overwrote :
        (b : S)
        → (process_kv_record raw env kv job key false b).0 ≡ none
        → Overwrote (process_kv_record raw env kv job key false b).1
    process_kv_record-Overwrote b =
        process_kv_record-rule raw env kv job key (λ out. out.0 ≡ none → Overwrote out.1)
          (λ attempt b' record_fields revision r hf ok h.
            update_record-done attempt b' record_fields revision r hf ok)
          (λ b' e hf h. absurd (cc h)) (λ b' c h. absurd (cc h)) (λ b' h. absurd (cc h)) b
