-- ===== src/Service/Documents/Rollback.antt =====
-- On the rollback of UploadDocument (internal/service/document_operations.go).
use lfx_v2_project_service.Prelude.{ℕ, String, ◌≡◌, Bool, Option, none, List, arith}
use lfx_v2_project_service.Exec.{err}
use lfx_v2_project_service.Domain.Error.{Error}
use lfx_v2_project_service.Domain.Model.{ProjectDocument}
use lfx_v2_project_service.Domain.Repository.{MessageBuilder, UserReader}
use lfx_v2_project_service.Nats.Kv.{Entry, json, done}
use lfx_v2_project_service.Nats.Laws.{KeyValueLaws}
use lfx_v2_project_service.Nats.Repository.{NatsRepository, World}
use lfx_v2_project_service.Nats.Documents.{
  put_document_file, create_document_metadata, delete_document_file, delete_unique_document_name,
}
use lfx_v2_project_service.Service.Runtime.{Runtime}
use lfx_v2_project_service.Service.Wiring.{wired, wired_parts}
use lfx_v2_project_service.Service.Documents.{store_document}

module _ {B : Type 0 → Type 0} (sha256_hex : String → String) (s : NatsRepository B)
    (messages : MessageBuilder (World B)) (users : UserReader (World B)) (skip : Bool)
    (peek : B ProjectDocument → String → Option (Entry ProjectDocument))
    (laws : KeyValueLaws s.documents peek) (rt : Runtime) where
  -- If the file or the metadata of a document cannot be stored, the key that was reserved for its
  -- name is free again, when the bucket takes every purge of that key.
  pub store_document-rollback :
      (d : ProjectDocument) (file_data : List ℕ) (key : String) (w : World B) (e : Error)
      → ((b : B ProjectDocument) → (s.documents.purge key b).0 ≡ done tt)
      → (store_document rt
          (wired sha256_hex s messages users skip)
          (wired_parts sha256_hex s messages users skip)
          d
          file_data
          key
          w).0
        ≡ err e
      → peek
          (store_document rt
            (wired sha256_hex s messages users skip)
            (wired_parts sha256_hex s messages users skip)
            d
            file_data
            key
            w).1.documents
          key
        ≡ none
  unfolding store_document put_document_file create_document_metadata delete_document_file
      delete_unique_document_name
  store_document-rollback d file_data key w e purges h =
      let after = (s.documents.put d.uid (json d) w.documents).1 in
      ground (
        arith,
        laws.purge_done key w.documents (purges w.documents),
        laws.purge_done key after (purges after),
      )
