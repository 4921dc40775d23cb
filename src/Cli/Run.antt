-- ===== src/Cli/Run.antt =====
-- Run of cmd/project-cli/commands/sync/rename_project_slug_runner.go, with the arguments that
-- rename_project_slug.go resolves for it.
pub mod DryRun
use lfx_v2_project_service.Prelude.{
  ℕ, String, Bool, true, false, ◌&&◌, ◌||◌, not, Option, none, some, List, [], ◌∷◌, ◌==◌, ltb,
  nat_eq, length, if◌then◌else◌,
}
use lfx_v2_project_service.Prelude.Text.{trim_space}
use lfx_v2_project_service.Cli.Records.{RawJson, Environment}
use lfx_v2_project_service.Cli.Buckets.{Opened, default_nats_buckets, run_nats}
use lfx_v2_project_service.Cli.Search.{SearchClient, run_open_search}

-- resolveSlugs; `none` is an error of the usage.
unfoldable pub stated_slugs : String × String → Option (String × String)
stated_slugs (old_slug, new_slug) =
    if old_slug == "" || new_slug == "" then none else some (old_slug, new_slug)

unfoldable pub positional_slugs : List String → Option (String × String)
unfolding stated_slugs
positional_slugs (old_arg ∷ new_arg ∷ []) = stated_slugs (trim_space old_arg, trim_space new_arg)
positional_slugs _ = none

unfoldable pub resolve_slugs :
    (old_slug_flag new_slug_flag : String) → (slug_args : List String) → Option (String × String)
unfolding stated_slugs positional_slugs
resolve_slugs old_slug_flag new_slug_flag [] =
    stated_slugs (trim_space old_slug_flag, trim_space new_slug_flag)
resolve_slugs old_slug_flag new_slug_flag (arg ∷ args) =
    if not (trim_space old_slug_flag == "") || not (trim_space new_slug_flag == "")
    then none
    else positional_slugs (arg ∷ args)

-- the loop of parseNATSBuckets over strings.Split(s, ",")
unfoldable pub nats_buckets : List String → List String
nats_buckets [] = []
nats_buckets (part ∷ parts) =
    let rest = nats_buckets parts in let b = trim_space part in if b == "" then rest else b ∷ rest

pub record RenameSlugOptions : Type 0 where
  pub old_slug : String
  pub new_slug : String
  pub dry_run : Bool
  pub concurrency : ℕ
  pub nats_buckets : List String

pub data RunError : Type 0 where
  invalid_options : RunError
  open_search_failed : RunError
  nats_failed : RunError

pub record Stores (O W : Type 0) : Type 0 where
  pub open_search : O
  pub nats : W

unfoldable pub buckets_of : List String → List String
unfolding default_nats_buckets
buckets_of [] = default_nats_buckets
buckets_of (bucket ∷ buckets) = bucket ∷ buckets

unfoldable pub are_valid : RenameSlugOptions → Bool
are_valid opts = not (
    opts.old_slug == ""
    || opts.new_slug == ""
    || opts.old_slug == opts.new_slug
    || ltb opts.concurrency 1)

module _ {O W J : Type 0} (raw : RawJson J) (env : Environment W) where
  module _ (open_bucket : String → Opened W J) (opts : RenameSlugOptions) where
    unfoldable pub run_nats_half : Stores O W → Option RunError × Stores O W
    unfolding buckets_of run_nats
    run_nats_half stores =
        let (summary, good, w) =
          run_nats raw env opts.dry_run open_bucket opts.old_slug opts.new_slug
            (buckets_of opts.nats_buckets) stores.nats in
        (if good then none else some nats_failed, record stores { nats = w })

    unfoldable pub run_stores : SearchClient O → Stores O W → Option RunError × Stores O W
    unfolding run_nats_half run_open_search
    run_stores client stores =
        let (summary, good, o) =
          run_open_search client opts.old_slug opts.new_slug opts.dry_run stores.open_search in
        let next = run_nats_half (record stores { open_search = o }) in
        if good then next else (some open_search_failed, record stores { open_search = o })

  -- The clients are nil pointers where they are `none`.
  unfoldable pub run :
      (client : Option (SearchClient O)) (jet_stream : Option (String → Opened W J))
      → RenameSlugOptions
      → Stores O W
      → Option RunError × Stores O W
  unfolding run_stores are_valid
  run none jet_stream opts stores = (some invalid_options, stores)
  run (some client) none opts stores = (some invalid_options, stores)
  run (some client) (some open_bucket) opts stores =
      if are_valid opts
      then run_stores open_bucket opts client stores
      else (some invalid_options, stores)
