-- ===== src/Cli/Records/Renaming.antt =====
-- On the fields of a renamed record, of
-- cmd/project-cli/commands/sync/rename_project_slug_runner.go.
use lfx_v2_project_service.Prelude.{
  String, ◌≡◌, refl, ◌≢◌, inl, inr, true, false, ◌&&◌, some, List, [], ◌∷◌, if◌then◌else◌,
  Bool-cases, arith, eq_iff, ◌∙◌,
}
use lfx_v2_project_service.Prelude.Assoc.{lookup, insert, lookup-insert}
use lfx_v2_project_service.Nats.Laws.{is_listed}
use lfx_v2_project_service.Cli.Records.{
  Object, RawJson, RenameSlug, holds, any_match, set_slugs, touch, renamed,
}

module _ {J : Type 0} (raw : RawJson J) where
  lookup-set_slugs :
      (old_slug new_slug : String) (fields : List String) (record_fields : Object J) (f : String)
      → lookup f (set_slugs raw old_slug new_slug fields record_fields) ≡ (
          if is_listed f fields && holds raw old_slug (lookup f record_fields)
          then some (raw.marshal_string new_slug)
          else lookup f record_fields)
  unfolding set_slugs is_listed
  lookup-set_slugs old_slug new_slug [] record_fields f = refl
  lookup-set_slugs old_slug new_slug (field ∷ fields) record_fields f =
      let new = raw.marshal_string new_slug in
      elim (Bool-cases (holds raw old_slug (lookup field record_fields))) [
        | inl held ↦ rw held (
            ground (
              arith,
              lookup-set_slugs old_slug new_slug fields (insert field new record_fields) f,
              lookup-insert record_fields new field f,
              eq_iff field f,
            ))
        | inr other ↦ rw other (
            ground
              (arith, lookup-set_slugs old_slug new_slug fields record_fields f, eq_iff field f))
      ]

  lookup-touch :
      (record_fields : Object J) (f : String)
      → f ≢ "updated_at"
      → lookup f (touch raw record_fields) ≡ lookup f record_fields
  unfolding touch
  lookup-touch record_fields f h =
      ground (
        arith,
        lookup-insert record_fields raw.marshalled_now "updated_at" f,
        eq_iff "updated_at" f,
      )

  -- A renamed record holds the new slug in exactly the slug fields that held the old one; every
  -- other field but "updated_at" is what it was.
  pub lookup-renamed :
      (job : RenameSlug) (record_fields : Object J) (f : String)
      → f ≢ "updated_at"
      → lookup f (renamed raw job record_fields) ≡ (
          if is_listed f job.fields && holds raw job.old_slug (lookup f record_fields)
          then some (raw.marshal_string job.new_slug)
          else lookup f record_fields)
  unfolding renamed
  lookup-renamed job record_fields f h =
      let slugs = set_slugs raw job.old_slug job.new_slug job.fields record_fields in
      lookup-touch slugs f h ∙ lookup-set_slugs job.old_slug job.new_slug job.fields record_fields f

  any_match-false :
      (old_slug : String) (fields : List String) (record_fields : Object J)
      → ((f : String)
          → is_listed f fields ≡ true
          → holds raw old_slug (lookup f record_fields) ≡ false)
      → any_match raw old_slug fields record_fields ≡ false
  unfolding any_match is_listed
  any_match-false old_slug [] record_fields h = refl
  any_match-false old_slug (field ∷ fields) record_fields h = ground (
    arith,
    h field,
    eq_iff field field,
    any_match-false old_slug fields record_fields (λ f l. h f (ground (arith, eq_iff field f))),
  )

  -- What the tool relies on of encoding/json, and of the slugs and the fields of a job.
  pub record IsSound (job : RenameSlug) : Type 0 where
    pub round_trip : raw.unmarshal_string (raw.marshal_string job.new_slug) ≡ some job.new_slug
    pub differ : job.new_slug ≢ job.old_slug
    pub no_timestamp : is_listed "updated_at" job.fields ≡ false

  -- A record that has been renamed does not match again.
  pub any_match-renamed :
      (job : RenameSlug) (record_fields : Object J)
      → IsSound job
      → any_match raw job.old_slug job.fields (renamed raw job record_fields) ≡ false
  any_match-renamed job record_fields sound =
      any_match-false job.old_slug job.fields (renamed raw job record_fields) λ f l.
        let slug_field : f ≢ "updated_at" = λ e. cc (l, sound.no_timestamp) in
        let new_slug_field : holds raw job.old_slug (some (raw.marshal_string job.new_slug))
            ≡ false =
          unfold holds in
          ground (arith, sound.round_trip, sound.differ, eq_iff job.new_slug job.old_slug) in
        rw (lookup-renamed job record_fields f slug_field)
          (elim (Bool-cases (holds raw job.old_slug (lookup f record_fields))) [
            | inl held ↦ rw (l, held) new_slug_field
            | inr other ↦ rw (l, other) other
          ])
