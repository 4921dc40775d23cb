-- ===== src/Service/Folders/Contents.antt =====
-- On DeleteFolder of internal/service/folder_operations.go, over the NATS repository.
use lfx_v2_project_service.Prelude.{
  ℕ, String, ◌≡◌, refl, ◌⊎◌, inl, inr, Bool, false, Option, some, arith,
}
use lfx_v2_project_service.Prelude.Text.{has_prefix}
use lfx_v2_project_service.Exec.{Result, ok, err, error_of}
use lfx_v2_project_service.Domain.Error.{Error}
use lfx_v2_project_service.Domain.Model.{ProjectDocument}
use lfx_v2_project_service.Domain.Repository.{MessageBuilder, UserReader}
use lfx_v2_project_service.Nats.Kv.{Entry, json}
use lfx_v2_project_service.Nats.Laws.{entry, KeyValueLaws}
use lfx_v2_project_service.Nats.Repository.{NatsRepository, World}
use lfx_v2_project_service.Nats.Documents.{list_documents}
use lfx_v2_project_service.Nats.Documents.Listing.{list_documents_exact}
use lfx_v2_project_service.Nats.Links.{list_links}
use lfx_v2_project_service.Service.Runtime.{Runtime}
use lfx_v2_project_service.Service.Core.{ProjectsService, Ready, service_ready, if_match_revision}
use lfx_v2_project_service.Service.Wiring.{wired, wired_parts, wired-ready}
use lfx_v2_project_service.Service.Folders.{delete_folder}
use lfx_v2_project_service.Service.Folders.Deletion.{delete_folder-not_empty}

Result-cases : {A : Type 0} (r : Result A) → ((a : A) × (r ≡ ok a)) ⊎ ((e : Error) × (r ≡ err e))
Result-cases (ok a) = inl (a, refl)
Result-cases (err e) = inr (e, refl)

module _ (rt : Runtime) {W : Type 0} (s : ProjectsService W) (r : Ready W)
    (ready : service_ready s ≡ some r) (w : W) (project_uid folder_uid : String)
    (if_match : Option String) (x_sync : Bool) where
  -- A request that cannot list what the folder may hold fails before it changes anything.
  delete_folder-unlisted :
      (e : Error)
      → (r.links.list_links project_uid w ≡ err e)
        ⊎ (r.documents.list_documents project_uid w ≡ err e)
      → (f : Error) × (delete_folder rt s project_uid folder_uid if_match x_sync w ≡ (err f, w))
  unfolding delete_folder if_match_revision
  delete_folder-unlisted e (inl h) =
      (error_of (delete_folder rt s project_uid folder_uid if_match x_sync w).0, ground arith)
  delete_folder-unlisted e (inr h) =
      (error_of (delete_folder rt s project_uid folder_uid if_match x_sync w).0, ground arith)

module _ {B : Type 0 → Type 0} (sha256_hex : String → String) (s : NatsRepository B)
    (messages : MessageBuilder (World B)) (users : UserReader (World B)) (skip : Bool)
    (peek : B ProjectDocument → String → Option (Entry ProjectDocument))
    (laws : KeyValueLaws s.documents peek) (rt : Runtime) (w : World B) where
  -- With a stored document of the project in the folder, DeleteFolder over the NATS repository
  -- fails and leaves the world as it was, whatever the If-Match header, the configuration and the
  -- replies of the store are.
  pub delete_folder-stored_document :
      (project_uid folder_uid key : String) (if_match : Option String) (x_sync : Bool)
      (d : ProjectDocument) (n : ℕ)
      → peek w.documents key ≡ some (entry (json d) n)
      → has_prefix key "lookup/" ≡ false
      → d.project_uid ≡ project_uid
      → d.folder_uid ≡ some folder_uid
      → (e : Error) × (delete_folder rt
            (wired sha256_hex s messages users skip)
            project_uid
            folder_uid
            if_match
            x_sync
            w
          ≡ (err e, w))
  delete_folder-stored_document project_uid folder_uid key if_match x_sync d n stored no_lookup own
        inside =
      let service = wired sha256_hex s messages users skip in
      let parts = wired_parts sha256_hex s messages users skip in
      let ready = wired-ready sha256_hex s messages users skip in
      let unlisted =
        delete_folder-unlisted rt service parts ready w project_uid folder_uid if_match x_sync in
      elim (Result-cases (list_links s project_uid w)) [
        | inr (e, h) ↦ unlisted e (inl h)
        | inl (links, hl) ↦ elim (Result-cases (list_documents sha256_hex s project_uid w)) [
          | inr (e, h) ↦ unlisted e (inr h)
          | inl (docs, hd) ↦
              delete_folder-not_empty rt service parts ready w project_uid folder_uid if_match
                x_sync links docs hl hd
                (inr (
                  d,
                  (list_documents_exact sha256_hex s peek laws w project_uid docs hd).1 key d n
                      stored no_lookup own,
                  inside,
                ))
        ]
      ]
