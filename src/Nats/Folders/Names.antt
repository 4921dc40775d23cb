-- ===== src/Nats/Folders/Names.antt =====
-- On the folders of internal/infrastructure/nats/repository.go: the reservation of names, and reads
-- through a project.
use lfx_v2_project_service.Prelude.{
  ℕ, String, ◌≡◌, ◌⊎◌, inl, inr, Option, none, some, arith, eq_iff,
}
use lfx_v2_project_service.Exec.{ok, err}
use lfx_v2_project_service.Domain.Error.{internal, folder_name_exists}
use lfx_v2_project_service.Domain.Model.{ProjectFolder}
use lfx_v2_project_service.Nats.Kv.{Entry, json, plain}
use lfx_v2_project_service.Nats.Laws.{entry, KeyValueLaws, Reply-done, Reply-cases}
use lfx_v2_project_service.Nats.Repository.{NatsRepository, World}
use lfx_v2_project_service.Nats.Folders.{unique_key, unique_folder_name, get_folder}

module _ {B : Type 0 → Type 0} (sha256_hex : String → String) (s : NatsRepository B)
    (peek : B ProjectFolder → String → Option (Entry ProjectFolder))
    (laws : KeyValueLaws s.folders peek) (w : World B) where
  -- A successful UniqueFolderName found the key of the folder free, and the key now holds the UID
  -- of the folder.
  pub unique_folder_name-done :
      (f : ProjectFolder) (key : String)
      → (unique_folder_name sha256_hex s f w).0 ≡ ok key
      → (n : ℕ) × (key ≡ unique_key sha256_hex s f)
        × (peek w.folders key ≡ none)
        × (peek (unique_folder_name sha256_hex s f w).1.folders key ≡ some (entry (plain f.uid) n))
  unfolding unique_folder_name
  unique_folder_name-done f key h =
      let k = unique_key sha256_hex s f in
      let (n, made) = Reply-done (s.folders.create k (plain f.uid) w.folders).0 (ground arith) in
      let facts = laws.create_done k (plain f.uid) w.folders n made in
      (n, ground arith, ground arith, ground arith)

  -- UniqueFolderName of a folder whose key holds something answers ErrFolderNameExists or
  -- ErrInternal.
  pub unique_folder_name-taken :
      (f : ProjectFolder) (e : Entry ProjectFolder)
      → peek w.folders (unique_key sha256_hex s f) ≡ some e
      → ((unique_folder_name sha256_hex s f w).0 ≡ err folder_name_exists)
        ⊎ ((unique_folder_name sha256_hex s f w).0 ≡ err internal)
  unfolding unique_folder_name
  unique_folder_name-taken f e h =
      let facts = laws.create_taken (unique_key sha256_hex s f) (plain f.uid) w.folders e h in
      ground arith

  -- A folder that GetFolder answers is the stored one and belongs to the project asked for.
  pub get_folder-project :
      (project_uid folder_uid : String) (f : ProjectFolder) (n : ℕ)
      → get_folder sha256_hex s project_uid folder_uid w ≡ ok (f, n)
      → (f.project_uid ≡ project_uid) × (peek w.folders folder_uid ≡ some (entry (json f) n))
  unfolding get_folder
  get_folder-project project_uid folder_uid f n h =
      elim (Reply-cases (s.folders.get w.folders folder_uid)) [
        | inl (e, got) ↦ (
          ground (arith, eq_iff f.project_uid project_uid),
          ground (arith, laws.get_done w.folders folder_uid e got),
        )
        | inr (c, failure) ↦ absurd (ground arith)
      ]
