-- ===== src/Cli/Records/Quiet.antt =====
-- On processKVRecord of cmd/project-cli/commands/sync/rename_project_slug_runner.go with no other
-- client at work.
use lfx_v2_project_service.Prelude.{
  ℕ, String, ◌≡◌, ◌≢◌, refl, sym, ap, ◌∙◌, inl, inr, Bool, false, Option, none, some, arith,
  Bool-cases,
}
use lfx_v2_project_service.Nats.Kv.{Value, json, plain, Entry, done, failed, KeyValue}
use lfx_v2_project_service.Nats.Laws.{entry, KeyValueLaws, Reply-cases}
use lfx_v2_project_service.Cli.Records.{
  Object, RawJson, refused, slug_mismatch, Environment, RenameSlug, Outcome, any_match, renamed,
  parse_entry, fetch, update_record, process_kv_record,
}
use lfx_v2_project_service.Cli.Records.Renaming.{IsSound, any_match-renamed}
use lfx_v2_project_service.Cli.Records.Updates.{OthersWrite, update_record-done}
use lfx_v2_project_service.Cli.Records.Rule.{process_kv_record-rule, process_kv_record-keeps}

pub record IsQuiet {S : Type 0} (env : Environment S) : Type 0 where
  pub no_others : (attempt : ℕ) (b : S) → env.others attempt b ≡ b
  pub sleeps : (milliseconds : ℕ) (b : S) → (env.sleep_with_context milliseconds b).1 ≡ b

module _ {J S : Type 0} (raw : RawJson J) (env : Environment S) (kv : KeyValue S (Object J))
    (job : RenameSlug) (peek : S → String → Option (Entry (Object J))) (laws : KeyValueLaws kv peek)
    (quiet : IsQuiet env) where
  -- The record under the key, if there is one, holds the old slug in no slug field.
  abbrev pub IsRenamed : String → S → Type 0
  IsRenamed key b =
      (record_fields : Object J) (revision : ℕ)
      → peek b key ≡ some (entry (json record_fields) revision)
      → any_match raw job.old_slug job.fields record_fields ≡ false

  pub process_kv_record-other :
      (dry_run : Bool) (key j : String) (b : S)
      → key ≢ j
      → peek (process_kv_record raw env kv job key dry_run b).1 j ≡ peek b j
  process_kv_record-other dry_run key j b h =
      process_kv_record-keeps raw env kv job key (λ b'. peek b' j ≡ peek b j)
        (λ attempt b' record_fields revision same.
          unfold update_record in
          laws.update_other key (json (renamed raw job record_fields)) revision
            (env.others attempt b') j h
          ∙ ap (λ s. peek s j) (quiet.no_others attempt b')
          ∙ same)
        (λ milliseconds b' same. ap (λ s. peek s j) (quiet.sleeps milliseconds b') ∙ same) dry_run b
        refl

  quiet_others : (key : String) → OthersWrite raw env kv job key peek laws
  quiet_others key attempt b e h =
      (e, ap (λ s. peek s key) (quiet.no_others attempt b) ∙ h, λ _. refl)

  mismatch_value :
      (v : Value (Object J)) (stored : ℕ) (record_fields : Object J) (revision : ℕ)
      → parse_entry raw job (done (entry v stored)) ≡ refused slug_mismatch
      → entry v stored ≡ entry (json record_fields) revision
      → any_match raw job.old_slug job.fields record_fields ≡ false
  unfolding parse_entry
  mismatch_value (plain s) stored record_fields revision h same = cc
  mismatch_value (json found) stored record_fields revision h same =
      elim (Bool-cases (any_match raw job.old_slug job.fields found)) [
        | inl matches ↦ absurd (let g = rw matches at h in cc g)
        | inr other ↦ ground arith
      ]

  fetch-IsRenamed :
      (key : String) (b : S) → fetch raw env kv job key b ≡ refused slug_mismatch → IsRenamed key b
  unfolding fetch
  fetch-IsRenamed key b h record_fields revision stored = elim (Reply-cases (kv.get b key)) [
    | inl (e, got) ↦
        mismatch_value e.value e.revision record_fields revision
          (ap (parse_entry raw job) (sym got) ∙ h) (cc (laws.get_done b key e got, stored))
    | inr (c, lost) ↦ absurd (
        let e : parse_entry raw job (failed c) ≡ refused slug_mismatch =
          ap (parse_entry raw job) (sym lost) ∙ h in
        unfold parse_entry in cc e)
  ]

  -- A record that the tool reports as renamed or skipped is left without the old slug.
  abbrev pub IsSettled : String → Outcome × S → Type 0
  IsSettled key out =
      (out.0 ≡ none → IsRenamed key out.1) × (out.0 ≡ some slug_mismatch → IsRenamed key out.1)

  pub process_kv_record-IsSettled :
      IsSound raw job
      → (key : String) (b : S) → IsSettled key (process_kv_record raw env kv job key false b)
  process_kv_record-IsSettled sound key b =
      process_kv_record-rule raw env kv job key (IsSettled key)
        (λ attempt b' record_fields revision r hf ok. (
          λ _ found rev stored.
              let over =
                update_record-done raw env kv job key peek laws (quiet_others key) attempt b'
                  record_fields revision r hf ok in
              let same : found ≡ renamed raw job over.1 = cc (over.6.1, stored) in
              rw same (any_match-renamed raw job over.1 sound),
          λ h. absurd (cc h),
        ))
        (λ b' e hf. (λ h. absurd (cc h), λ h. fetch-IsRenamed key b' (hf ∙ (cc h))))
        (λ b' c. (λ h. absurd (cc h), λ h. absurd (cc h)))
        (λ b'. (λ h. absurd (cc h), λ h. absurd (cc h))) b
