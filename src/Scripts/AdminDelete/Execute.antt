-- ===== src/Scripts/AdminDelete/Execute.antt =====
-- The writes of scripts/admin-delete-project/main.go. The errors are those of the calls that fail.
pub mod Ownership
use lfx_v2_project_service.Prelude.{
  ℕ, String, Bool, true, false, Option, none, some, List, [], ◌∷◌, ◌&&◌, ◌==◌, if◌then◌else◌,
}
use lfx_v2_project_service.Prelude.Text.{sprintf}
use lfx_v2_project_service.Exec.{Result, ok, err, Exec, pure, try, ◌>>=◌, ◌>>◌}
use lfx_v2_project_service.Domain.Model.{
  ProjectBase, ProjectSettings, ProjectFolder, ProjectLink, ProjectDocument,
}
use lfx_v2_project_service.Domain.Message.{
  deleted, uid, envelope, bare, link_indexing_config, folder_indexing_config,
  document_indexing_config,
}
use lfx_v2_project_service.Domain.Repository.{MessageBuilder}
use lfx_v2_project_service.Nats.Kv.{Entry, KeyValue, ObjectStore}
use lfx_v2_project_service.Nats.Repository.{
  World, on_projects, on_settings, on_links, on_folders, on_documents, on_files,
}
use lfx_v2_project_service.Nats.Links.{link_key}
use lfx_v2_project_service.Scripts.AdminDelete.Audit.{KvBuckets, ProjectAudit, ChildAuditResult}

-- fmt.Sprintf(constants.KVLookupFolderPrefix, f.BuildIndexKey(ctx)), and the same for a document
abbrev pub index_key : (String → String) → (project_uid name : String) → String
index_key sha256_hex project_uid name = sha256_hex (sprintf project_uid (sprintf "|" name))

module _ {B : Type 0 → Type 0} (sha256_hex : String → String) (buckets : KvBuckets B)
    (mb : MessageBuilder (World B)) (sync : Bool) where
  unfoldable pub delete_link_record :
      Option (KeyValue (B ProjectLink) ProjectLink) → ProjectLink → Exec (World B) (Unit {0})
  delete_link_record none l = pure tt
  delete_link_record (some links) l = do
    on_links (links.delete l.uid none)
    try (on_links (links.purge (link_key l.project_uid l.uid)))
    pure tt

  unfoldable pub delete_links : List ProjectLink → Exec (World B) (Unit {0})
  unfolding delete_link_record
  delete_links [] = pure tt
  delete_links (l ∷ links) = do
    mb.send_indexer_message "lfx.index.project_link"
        (envelope deleted (uid l.uid) (link_indexing_config l)) sync
    delete_link_record buckets.links l
    delete_links links

  unfoldable pub delete_folder_record :
      Option (KeyValue (B ProjectFolder) ProjectFolder) → ProjectFolder → Exec (World B) (Unit {0})
  delete_folder_record none f = pure tt
  delete_folder_record (some folders) f = do
    on_folders (folders.delete f.uid none)
    try (
        on_folders (
          folders.purge
            (sprintf "lookup/project-folders/" (index_key sha256_hex f.project_uid f.name))))
    pure tt

  unfoldable pub delete_folders : List ProjectFolder → Exec (World B) (Unit {0})
  unfolding delete_folder_record
  delete_folders [] = pure tt
  delete_folders (f ∷ folders) = do
    mb.send_indexer_message "lfx.index.project_folder"
        (envelope deleted (uid f.uid) (folder_indexing_config f)) sync
    delete_folder_record buckets.folders f
    delete_folders folders

  unfoldable pub delete_document_record :
      Option (KeyValue (B ProjectDocument) ProjectDocument)
      → ProjectDocument
      → Exec (World B) (Unit {0})
  delete_document_record none d = pure tt
  delete_document_record (some documents) d = do
    on_documents (documents.delete d.uid none)
    try (
        on_documents (
          documents.purge
            (sprintf "lookup/project-documents/" (index_key sha256_hex d.project_uid d.name))))
    pure tt

  unfoldable pub delete_document_blob :
      Option (ObjectStore (B (List ℕ))) → ProjectDocument → Exec (World B) (Unit {0})
  delete_document_blob none d = pure tt
  delete_document_blob (some files) d = do try (on_files (files.delete d.uid)); pure tt

  unfoldable pub delete_documents : List ProjectDocument → Exec (World B) (Unit {0})
  unfolding delete_document_record delete_document_blob
  delete_documents [] = pure tt
  delete_documents (d ∷ documents) = do
    mb.send_indexer_message "lfx.index.project_document"
        (envelope deleted (uid d.uid) (document_indexing_config d)) sync
    delete_document_record buckets.documents d
    delete_document_blob buckets.document_files d
    delete_documents documents

  unfoldable pub cascade_delete_children : ChildAuditResult → Exec (World B) (Unit {0})
  unfolding delete_links delete_folders delete_documents
  cascade_delete_children children = do
    delete_links children.links
    delete_folders children.folders
    delete_documents children.documents

  unfoldable pub delete_base :
      (key : String) → Option (Entry ProjectBase) → Exec (World B) (Unit {0})
  delete_base key none = pure tt
  delete_base key (some e) = on_projects (buckets.projects.delete key (some e.revision))

  unfoldable pub delete_slug :
      (key : String) → Option (Entry ProjectBase) → Exec (World B) (Unit {0})
  delete_slug key none = pure tt
  delete_slug key (some e) = on_projects (buckets.projects.delete key none)

  unfoldable pub delete_settings :
      (key : String) → Option (Entry ProjectSettings) → Exec (World B) (Unit {0})
  delete_settings key none = pure tt
  delete_settings key (some e) = on_settings (buckets.project_settings.delete key none)

  -- From the CAS delete of the base record on.
  unfoldable pub delete_project_records : ProjectAudit → Exec (World B) (Unit {0})
  unfolding delete_base delete_slug delete_settings
  delete_project_records rec = do
    delete_base rec.uid rec.base.entry
    mb.send_indexer_message "lfx.index.project" (bare rec.uid) sync
    mb.send_indexer_message "lfx.index.project_settings" (bare rec.uid) sync
    delete_slug rec.slug_kv.key rec.slug_kv.entry
    delete_settings rec.uid rec.settings.entry

  unfoldable pub execute_delete : ProjectAudit → (cascade : Bool) → Exec (World B) (Unit {0})
  unfolding cascade_delete_children delete_project_records
  execute_delete rec cascade = do
    if cascade && rec.children.found then cascade_delete_children rec.children else pure tt
    delete_project_records rec
