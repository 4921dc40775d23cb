-- ===== src/Nats/Folders.antt =====
-- The methods of NatsRepository on folders. A name is reserved under
-- "lookup/project-folders/<hash>", where the hash is hex(sha256("<project UID>|<name>"));
-- `sha256_hex` is that function.
pub mod Names
use lfx_v2_project_service.Prelude.{
  ℕ, String, Bool, Option, none, some, List, [], ◌∷◌, ◌==◌, if◌then◌else◌,
}
use lfx_v2_project_service.Prelude.Text.{sprintf, has_prefix}
use lfx_v2_project_service.Domain.Error.{
  Error, folder_not_found, folder_name_exists, internal, revision_mismatch, unmarshal,
}
use lfx_v2_project_service.Domain.Model.{ProjectFolder}
use lfx_v2_project_service.Exec.{
  Result, ok, err, Exec, map_err, bind, pure, read, change_err, try, is_ok, raise, ◌>>=◌, ◌>>◌,
}
use lfx_v2_project_service.Nats.Kv.{Entry, json, plain, unmarshal_value, from_reply}
use lfx_v2_project_service.Nats.Repository.{
  NatsRepository, World, is_key_not_found, is_key_exists, is_wrong_last_sequence, on_folders,
}

abbrev not_found_or_internal : Error → Error
not_found_or_internal e = if is_key_not_found e then folder_not_found else internal

abbrev mismatch_or_internal : Error → Error
mismatch_or_internal e = if is_wrong_last_sequence e then revision_mismatch else internal

abbrev exists_or_internal : Error → Error
exists_or_internal e = if is_key_exists e then folder_name_exists else internal

module _ {B : Type 0 → Type 0} (sha256_hex : String → String) (s : NatsRepository B) where
  -- ProjectFolder.BuildIndexKey
  build_index_key : ProjectFolder → String
  build_index_key r = sha256_hex (sprintf r.project_uid (sprintf "|" r.name))

  unfoldable pub unique_key : ProjectFolder → String
  unfolding build_index_key
  unique_key r = sprintf "lookup/project-folders/" (build_index_key r)

  get_folder_entry : String → World B → Result (Entry ProjectFolder)
  get_folder_entry uid w = from_reply (s.folders.get w.folders uid)

  unfoldable pub get_folder : String → String → World B → Result (ProjectFolder × ℕ)
  unfolding get_folder_entry
  get_folder project_uid uid w =
      bind (map_err not_found_or_internal (get_folder_entry uid w)) λ entry.
        bind (map_err (λ _. unmarshal) (unmarshal_value entry.value))
          λ r. if r.project_uid == project_uid then ok (r, entry.revision) else err folder_not_found

  unfoldable pub create_folder : ProjectFolder → Exec (World B) (Unit {0})
  create_folder r = do
    change_err (λ _. internal) (on_folders (s.folders.put r.uid (json r)))
    pure tt

  unfoldable pub delete_folder : String → String → ℕ → Exec (World B) (Unit {0})
  unfolding get_folder unique_key
  delete_folder project_uid uid revision = do
    found ← read (get_folder project_uid uid)
    change_err mismatch_or_internal (on_folders (s.folders.delete uid (some revision)))
    try (on_folders (s.folders.purge (unique_key found.0)))
    pure tt

  unfoldable pub unique_folder_name : ProjectFolder → Exec (World B) String
  unfolding unique_key
  unique_folder_name r = do
    change_err exists_or_internal (on_folders (s.folders.create (unique_key r) (plain r.uid)))
    pure (unique_key r)

  unfoldable pub delete_unique_folder_name : String → Exec (World B) (Unit {0})
  delete_unique_folder_name key = change_err (λ _. internal) (on_folders (s.folders.purge key))
