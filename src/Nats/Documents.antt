-- ===== src/Nats/Documents.antt =====
-- The methods of NatsRepository on documents. A name is reserved under
-- "lookup/project-documents/<hash>", where the hash is hex(sha256("<project UID>|<name>"));
-- `sha256_hex` is that function.
pub mod Listing
use lfx_v2_project_service.Prelude.{ℕ, String, some, List, [], ◌∷◌, ◌==◌, if◌then◌else◌}
use lfx_v2_project_service.Prelude.Text.{sprintf, has_prefix}
use lfx_v2_project_service.Domain.Error.{
  Error, document_not_found, document_name_exists, internal, revision_mismatch, unmarshal,
}
use lfx_v2_project_service.Domain.Model.{ProjectDocument}
use lfx_v2_project_service.Exec.{
  Result, ok, err, Exec, map_err, bind, pure, read, change_err, try, ◌>>=◌, ◌>>◌,
}
use lfx_v2_project_service.Nats.Kv.{Entry, json, plain, unmarshal_value, from_reply}
use lfx_v2_project_service.Nats.Repository.{
  NatsRepository, World, is_key_not_found, is_key_exists, is_wrong_last_sequence, on_documents,
  on_files,
}

abbrev not_found_or_internal : Error → Error
not_found_or_internal e = if is_key_not_found e then document_not_found else internal

abbrev mismatch_or_internal : Error → Error
mismatch_or_internal e = if is_wrong_last_sequence e then revision_mismatch else internal

abbrev exists_or_internal : Error → Error
exists_or_internal e = if is_key_exists e then document_name_exists else internal

module _ {B : Type 0 → Type 0} (sha256_hex : String → String) (s : NatsRepository B) where
  -- ProjectDocument.BuildIndexKey
  build_index_key : ProjectDocument → String
  build_index_key r = sha256_hex (sprintf r.project_uid (sprintf "|" r.name))

  unfoldable pub unique_key : ProjectDocument → String
  unfolding build_index_key
  unique_key r = sprintf "lookup/project-documents/" (build_index_key r)

  get_document_entry : String → World B → Result (Entry ProjectDocument)
  get_document_entry uid w = from_reply (s.documents.get w.documents uid)

  unfoldable pub get_document_metadata : String → String → World B → Result (ProjectDocument × ℕ)
  unfolding get_document_entry
  get_document_metadata project_uid uid w =
      bind (map_err not_found_or_internal (get_document_entry uid w)) λ entry.
        bind (map_err (λ _. unmarshal) (unmarshal_value entry.value)) λ r.
          if r.project_uid == project_uid then ok (r, entry.revision) else err document_not_found

  unfoldable pub create_document_metadata : ProjectDocument → Exec (World B) (Unit {0})
  create_document_metadata r = do
    change_err (λ _. internal) (on_documents (s.documents.put r.uid (json r)))
    pure tt

  unfoldable pub delete_document_metadata : String → String → ℕ → Exec (World B) (Unit {0})
  unfolding get_document_metadata unique_key
  delete_document_metadata project_uid uid revision = do
    found ← read (get_document_metadata project_uid uid)
    change_err mismatch_or_internal (on_documents (s.documents.delete uid (some revision)))
    try (on_documents (s.documents.purge (unique_key found.0)))
    pure tt

  unfoldable pub unique_document_name : ProjectDocument → Exec (World B) String
  unfolding unique_key
  unique_document_name r = do
    change_err exists_or_internal (on_documents (s.documents.create (unique_key r) (plain r.uid)))
    pure (unique_key r)

  unfoldable pub delete_unique_document_name : String → Exec (World B) (Unit {0})
  delete_unique_document_name key =
      change_err (λ _. internal) (on_documents (s.documents.purge key))

  -- the loop of ListDocuments
  list_document_keys : String → List String → World B → Result (List ProjectDocument)
  unfolding get_document_entry
  list_document_keys project_uid [] w = ok []
  list_document_keys project_uid (key ∷ keys) w =
      let rest = list_document_keys project_uid keys w in
      let one = bind (map_err (λ _. internal) (get_document_entry key w)) (λ entry.
        bind (map_err (λ _. unmarshal) (unmarshal_value entry.value)) (λ doc.
          bind rest (λ docs. ok (if doc.project_uid == project_uid then doc ∷ docs else docs)))) in
      if has_prefix key "lookup/" then rest else one

  unfoldable pub list_documents : String → World B → Result (List ProjectDocument)
  unfolding list_document_keys
  list_documents project_uid w =
      bind (map_err (λ _. internal) (from_reply (s.documents.list_keys w.documents)))
        λ keys. list_document_keys project_uid keys w

  -- errors.Is(err, jetstream.ErrObjectNotFound) is the test of `is_key_not_found`
  unfoldable pub get_document_file : String → World B → Result (List ℕ)
  get_document_file uid w =
      map_err not_found_or_internal (from_reply (s.document_files.get w.document_files uid))

  unfoldable pub put_document_file : String → List ℕ → Exec (World B) (Unit {0})
  put_document_file uid file_data =
      change_err (λ _. internal) (on_files (s.document_files.put uid file_data))

  unfoldable pub delete_document_file : String → Exec (World B) (Unit {0})
  delete_document_file uid = change_err (λ _. internal) (on_files (s.document_files.delete uid))
