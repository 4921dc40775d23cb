-- ===== src/Examples/Contents.antt =====
-- The theorems about the documents that are listed, at buckets in memory.
use lfx_v2_project_service.Prelude.{ℕ, String, ◌≡◌, refl, true, false, some, [], ◌∷◌, Member}
use lfx_v2_project_service.Prelude.Text.{has_prefix}
use lfx_v2_project_service.Exec.{err}
use lfx_v2_project_service.Domain.Error.{Error}
use lfx_v2_project_service.Domain.Model.{ProjectDocument}
use lfx_v2_project_service.Nats.Kv.{json}
use lfx_v2_project_service.Nats.Laws.{entry}
use lfx_v2_project_service.Nats.Memory.{Memory, peek, memory, memory-laws}
use lfx_v2_project_service.Nats.Repository.{World}
use lfx_v2_project_service.Nats.Documents.{list_documents}
use lfx_v2_project_service.Nats.Documents.Listing.{list_documents_exact}
use lfx_v2_project_service.Service.Folders.{delete_folder}
use lfx_v2_project_service.Service.Folders.Contents.{delete_folder-stored_document}
use lfx_v2_project_service.Examples.Sample.{
  repository, digest, messages, users, service, runtime, world, report,
}

list_documents_exact_example :
    ((d : ProjectDocument)
      → Member d (report ∷ [])
      → (k : String) × (n : ℕ) × (d.project_uid ≡ "u1")
        × (peek world.documents k ≡ some (entry (json d) n)))
    × ((key : String) (d : ProjectDocument) (r : ℕ)
        → peek world.documents key ≡ some (entry (json d) r)
        → has_prefix key "lookup/" ≡ false
        → d.project_uid ≡ "u1"
        → Member d (report ∷ []))
list_documents_exact_example =
    list_documents_exact digest repository peek memory-laws world "u1" (report ∷ [])
      (unfold memory list_documents has_prefix in refl)

-- The report, filed in the folder "f1".
abbrev filed : ProjectDocument
filed = record report { folder_uid = some "f1" }

abbrev filed_world : World Memory
filed_world = record world {
  documents = record { entries = ("d1", entry (json filed) 1) ∷ []; last = 1 };
}

delete_folder-stored_document_example :
    (e : Error) × (delete_folder runtime service "u1" "f1" (some "2") true filed_world
      ≡ (err e, filed_world))
delete_folder-stored_document_example =
    delete_folder-stored_document digest repository messages users false peek memory-laws runtime
      filed_world "u1" "f1" "d1" (some "2") true filed 1 (unfold memory in refl)
      (unfold has_prefix in refl) refl refl
