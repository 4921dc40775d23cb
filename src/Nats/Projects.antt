-- ===== src/Nats/Projects.antt =====
-- The methods of NatsRepository on projects: base records, settings and slug mappings.
pub mod Writes
pub mod Deletion
pub mod Reads
pub mod View
pub mod Errors
pub mod Consistency
pub mod Refinement
use lfx_v2_project_service.Prelude.{
  ℕ, String, Bool, Option, none, some, List, [], ◌∷◌, ◌==◌, if◌then◌else◌,
}
use lfx_v2_project_service.Prelude.Text.{sprintf, has_prefix}
use lfx_v2_project_service.Exec.{
  Result, ok, err, Exec, map_err, bind, pure, read, change_err, ◌>>=◌, ◌>>◌,
}
use lfx_v2_project_service.Domain.Error.{
  Error, project_not_found, project_slug_exists, internal, revision_mismatch, unmarshal,
  is_project_not_found,
}
use lfx_v2_project_service.Domain.Model.{ProjectBase, ProjectSettings}
use lfx_v2_project_service.Nats.Kv.{
  Entry, json, plain, unmarshal_value, value_text, from_reply, Reply, KeyValue,
}
use lfx_v2_project_service.Nats.Repository.{
  NatsRepository, World, is_key_not_found, is_key_exists, is_wrong_last_sequence, on_projects,
  on_settings,
}

-- fmt.Sprintf("slug/%s", slug)
abbrev pub slug_key : String → String
slug_key slug = sprintf "slug/" slug

abbrev not_found_or_internal : Error → Error
not_found_or_internal e = if is_key_not_found e then project_not_found else internal

abbrev mismatch_or_internal : Error → Error
mismatch_or_internal e = if is_wrong_last_sequence e then revision_mismatch else internal

module _ {B : Type 0 → Type 0} (s : NatsRepository B) where
  get_project_base_entry : String → World B → Result (Entry ProjectBase)
  get_project_base_entry project_uid w = from_reply (s.projects.get w.projects project_uid)

  unfoldable pub get_project_base_with_revision : String → World B → Result (ProjectBase × ℕ)
  unfolding get_project_base_entry
  get_project_base_with_revision project_uid w =
      bind (map_err not_found_or_internal (get_project_base_entry project_uid w)) λ entry.
        bind (map_err (λ _. unmarshal) (unmarshal_value entry.value))
          λ project. ok (project, entry.revision)

  unfoldable pub get_project_base : String → World B → Result ProjectBase
  unfolding get_project_base_entry
  get_project_base project_uid w =
      bind (map_err not_found_or_internal (get_project_base_entry project_uid w))
        λ entry. map_err (λ _. unmarshal) (unmarshal_value entry.value)

  abbrev exists_from : Result (Entry ProjectBase) → Result Bool
  exists_from (ok entry) = ok Bool.true
  exists_from (err e) = if is_key_not_found e then ok Bool.false else err internal

  unfoldable pub project_exists : String → World B → Result Bool
  unfolding get_project_base_entry
  project_exists project_uid w = exists_from (get_project_base_entry project_uid w)

  unfoldable pub get_project_uid_from_slug : String → World B → Result String
  get_project_uid_from_slug project_slug w =
      bind
        (map_err not_found_or_internal
          (from_reply (s.projects.get w.projects (slug_key project_slug))))
        λ entry. ok (value_text entry.value)

  abbrev slug_exists_from : Result String → Result Bool
  slug_exists_from (ok uid) = ok Bool.true
  slug_exists_from (err e) = if is_project_not_found e then ok Bool.false else err e

  unfoldable pub project_slug_exists_in : String → World B → Result Bool
  unfolding get_project_uid_from_slug
  project_slug_exists_in project_slug w =
      slug_exists_from (get_project_uid_from_slug project_slug w)

  -- the loop of ListAllProjectsBase over the listed keys
  list_base_keys : List String → World B → Result (List ProjectBase)
  unfolding get_project_base_entry
  list_base_keys [] w = ok []
  list_base_keys (key ∷ keys) w =
      let rest = list_base_keys keys w in
      let one = bind (map_err (λ _. internal) (get_project_base_entry key w)) (λ entry.
        bind (map_err (λ _. unmarshal) (unmarshal_value entry.value))
          (λ project. bind rest (λ projects. ok (project ∷ projects)))) in
      if has_prefix key "slug/" then rest else one

  unfoldable pub list_all_projects_base : World B → Result (List ProjectBase)
  unfolding list_base_keys
  list_all_projects_base w =
      bind (map_err (λ _. internal) (from_reply (s.projects.list_keys w.projects)))
        λ keys. list_base_keys keys w

  -- the loop of ListAllProjectsSettings
  list_settings_keys : List String → World B → Result (List ProjectSettings)
  list_settings_keys [] w = ok []
  list_settings_keys (key ∷ keys) w =
      let rest = list_settings_keys keys w in
      let one =
        bind (map_err (λ _. internal) (from_reply (s.project_settings.get w.project_settings key)))
          (λ entry.
            bind (map_err (λ _. unmarshal) (unmarshal_value entry.value))
              (λ settings. bind rest (λ all. ok (settings ∷ all)))) in
      if has_prefix key "lookup/" then rest else one

  unfoldable pub list_all_projects_settings : World B → Result (List ProjectSettings)
  unfolding list_settings_keys
  list_all_projects_settings w =
      bind (map_err (λ _. internal) (from_reply (s.project_settings.list_keys w.project_settings)))
        λ keys. list_settings_keys keys w

  unfoldable pub list_all_projects : World B → Result (List ProjectBase × List ProjectSettings)
  unfolding list_all_projects_base list_all_projects_settings
  list_all_projects w =
      bind (list_all_projects_base w)
        λ projects. bind (list_all_projects_settings w) λ settings. ok (projects, settings)

  put_project_slug_mapping : ProjectBase → Exec (World B) ℕ
  put_project_slug_mapping base = on_projects (s.projects.put (slug_key base.slug) (plain base.uid))

  put_project_base : ProjectBase → Exec (World B) ℕ
  put_project_base base = on_projects (s.projects.put base.uid (json base))

  put_project_settings : ProjectSettings → Exec (World B) ℕ
  put_project_settings settings = on_settings (s.project_settings.put settings.uid (json settings))

  store_settings : Option ProjectSettings → Exec (World B) (Unit {0})
  unfolding put_project_settings
  store_settings none = pure tt
  store_settings (some settings) = do
    change_err (λ _. internal) (put_project_settings settings)
    pure tt

  unfoldable pub create_project : ProjectBase → Option ProjectSettings → Exec (World B) (Unit {0})
  unfolding put_project_slug_mapping put_project_base store_settings
  create_project base settings = do
    change_err (λ e. if is_key_exists e then project_slug_exists else e)
        (put_project_slug_mapping base)
    change_err (λ _. internal) (put_project_base base)
    store_settings settings

  delete_project_slug_mapping : String → Exec (World B) (Unit {0})
  delete_project_slug_mapping slug = on_projects (s.projects.delete (slug_key slug) none)

  -- `if existingProject.Slug != projectBase.Slug { … }` of UpdateProjectBase
  move_slug_mapping : String → ProjectBase → Exec (World B) (Unit {0})
  unfolding put_project_slug_mapping delete_project_slug_mapping
  move_slug_mapping old_slug base = if old_slug == base.slug then pure tt else do
    change_err (λ _. internal) (delete_project_slug_mapping old_slug)
    change_err (λ _. internal) (put_project_slug_mapping base)
    pure tt

  update_project_base_entry : ProjectBase → ℕ → Exec (World B) ℕ
  update_project_base_entry base revision =
      on_projects (s.projects.update base.uid (json base) revision)

  unfoldable pub update_project_base : ProjectBase → ℕ → Exec (World B) (Unit {0})
  unfolding get_project_base move_slug_mapping update_project_base_entry
  update_project_base base revision = do
    existing ← read (get_project_base base.uid)
    move_slug_mapping existing.slug base
    change_err mismatch_or_internal (update_project_base_entry base revision)
    pure tt

  get_project_settings_entry : String → World B → Result (Entry ProjectSettings)
  get_project_settings_entry project_uid w =
      from_reply (s.project_settings.get w.project_settings project_uid)

  -- The errors of the client and of encoding/json are passed on as they are.
  unfoldable pub get_project_settings : String → World B → Result ProjectSettings
  unfolding get_project_settings_entry
  get_project_settings project_uid w =
      bind (get_project_settings_entry project_uid w) λ entry. unmarshal_value entry.value

  unfoldable pub get_project_settings_with_revision :
      String → World B → Result (ProjectSettings × ℕ)
  unfolding get_project_settings_entry
  get_project_settings_with_revision project_uid w =
      bind (get_project_settings_entry project_uid w)
        λ entry. bind (unmarshal_value entry.value) λ settings. ok (settings, entry.revision)

  update_project_settings_entry : ProjectSettings → ℕ → Exec (World B) ℕ
  update_project_settings_entry settings revision =
      on_settings (s.project_settings.update settings.uid (json settings) revision)

  unfoldable pub update_project_settings : ProjectSettings → ℕ → Exec (World B) (Unit {0})
  unfolding update_project_settings_entry
  update_project_settings settings revision = do
    change_err mismatch_or_internal (update_project_settings_entry settings revision)
    pure tt

  delete_project_base : String → ℕ → Exec (World B) (Unit {0})
  delete_project_base project_uid revision =
      on_projects (s.projects.delete project_uid (some revision))

  delete_project_settings : String → Exec (World B) (Unit {0})
  delete_project_settings project_uid = on_settings (s.project_settings.delete project_uid none)

  unfoldable pub delete_project : String → ℕ → Exec (World B) (Unit {0})
  unfolding get_project_base delete_project_base delete_project_slug_mapping delete_project_settings
  delete_project project_uid revision = do
    project ← read (get_project_base project_uid)
    change_err mismatch_or_internal (delete_project_base project_uid revision)
    change_err (λ _. internal) (delete_project_slug_mapping project.slug)
    change_err (λ _. internal) (delete_project_settings project_uid)
