-- ===== src/Cli/Search.antt =====
-- The OpenSearch half of cmd/project-cli/commands/sync/rename_project_slug_runner.go. The client, and
-- the script that runs in OpenSearch, are outside: a request is answered by an error, or with the
-- decoded counts.
use lfx_v2_project_service.Prelude.{
  ℕ, String, Bool, true, false, ◌||◌, Option, none, some, List, [], ◌∷◌, ltb, not,
}
use lfx_v2_project_service.Prelude.Text.{sprintf}

pub data Term : Type 0 where
  flag : (field : String) → Bool → Term
  text : (field value : String) → Term

pub record BoolQuery : Type 0 where
  pub filter : List Term
  pub should : List Term
  pub minimum_should_match : ℕ

unfoldable pub build_os_query : String → BoolQuery
build_os_query old_slug = record {
  filter = flag "latest" true ∷ [];
  should =
      text "data.project_slug" old_slug
      ∷ text "data.slug" old_slug
      ∷ text "tags" (sprintf "project_slug:" old_slug)
      ∷ [];
  minimum_should_match = 1;
}

-- The decoded response of update_by_query; `failures` is the number of failures in it.
pub record UpdateResponse : Type 0 where
  pub total : ℕ
  pub updated : ℕ
  pub version_conflicts : ℕ
  pub noops : ℕ
  pub failures : ℕ

-- `none` is a failed request, an error status or a body that does not decode.
pub record SearchClient (O : Type 0) : Type 0 where
  pub search_total : BoolQuery → O → Option ℕ
  pub update_by_query : BoolQuery → (old_slug new_slug : String) → O → Option UpdateResponse × O

pub record SearchSummary : Type 0 where
  pub examined : ℕ
  pub total : ℕ
  pub updated : ℕ
  pub noops : ℕ
  pub conflicts : ℕ
  pub skipped : ℕ

abbrev pub no_documents : SearchSummary
no_documents = record {
  examined = 0;
  total = 0;
  updated = 0;
  noops = 0;
  conflicts = 0;
  skipped = 0;
}

module _ {O : Type 0} (client : SearchClient O) where
  -- The count, and whether the error is nil.
  unfoldable pub audit_open_search : BoolQuery → O → ℕ × Bool
  audit_open_search query o = elim (client.search_total query o) [
    | none ↦ (0, false)
    | some total ↦ (total, true)
  ]

  unfoldable pub updated_counts : Option UpdateResponse → UpdateResponse × Bool
  updated_counts none =
      (record { total = 0; updated = 0; version_conflicts = 0; noops = 0; failures = 0 }, false)
  updated_counts (some response) = (response, not (ltb 0 response.failures))

  unfoldable pub summarize : UpdateResponse × Bool → SearchSummary × Bool
  summarize (counts, good) = (
    record {
      examined = counts.total;
      total = counts.total;
      updated = counts.updated;
      noops = counts.noops;
      conflicts = counts.version_conflicts;
      skipped = counts.noops;
    },
    not (ltb 0 counts.version_conflicts || not good),
  )

  unfoldable pub run_open_search :
      (old_slug new_slug : String) → (dry_run : Bool) → O → SearchSummary × Bool × O
  unfolding audit_open_search updated_counts summarize
  run_open_search old_slug new_slug true o =
      let (matched, good) = audit_open_search (build_os_query old_slug) o in
      (record no_documents { total = matched; updated = matched }, good, o)
  run_open_search old_slug new_slug false o =
      let (response, o') = client.update_by_query (build_os_query old_slug) old_slug new_slug o in
      let (summary, good) = summarize (updated_counts response) in (summary, good, o')
