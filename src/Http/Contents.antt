-- ===== src/Http/Contents.antt =====
-- cmd/project-api/service_endpoint_folder.go, service_endpoint_link.go and service_endpoint_document.go
use lfx_v2_project_service.Prelude.{String, Option, none, some, ◌==◌, if◌then◌else◌}
use lfx_v2_project_service.Domain.Model.{ProjectFolder, ProjectLink, ProjectDocument}
use lfx_v2_project_service.Service.Core.{ProjectsService, run_sync}
use lfx_v2_project_service.Service.Runtime.{Runtime}
use lfx_v2_project_service.Service.Folders
use lfx_v2_project_service.Service.Links
use lfx_v2_project_service.Service.Documents
use lfx_v2_project_service.Http.Errors.{Reply, reply, endpoint}
use lfx_v2_project_service.Http.Download.{DocumentDownloadBody}
use lfx_v2_project_service.Http.Payloads.{
  ApiFolder, ApiLink, ApiDocument, CreateProjectFolderPayload, CreateProjectLinkPayload,
  UploadProjectDocumentPayload, GetProjectFolderPayload, GetProjectLinkPayload,
  GetProjectDocumentPayload, DownloadProjectDocumentPayload, DeleteProjectFolderPayload,
  DeleteProjectLinkPayload, DeleteProjectDocumentPayload,
}

-- `if s != "" { p = &s }`
abbrev stated : String → Option String
stated s = if s == "" then none else some s

unfoldable pub nil_str : Option String → String
nil_str none = ""
nil_str (some s) = s

module _ (rt : Runtime) where
  unfoldable pub to_service_folder : ProjectFolder → ApiFolder
  to_service_folder f = record {
    uid = some f.uid;
    project_uid = some f.project_uid;
    name = some f.name;
    created_by_username = stated f.created_by_username;
    created_at = some (rt.format_rfc3339 f.created_at);
    updated_at = some (rt.format_rfc3339 f.updated_at);
  }

  unfoldable pub to_service_link : ProjectLink → ApiLink
  to_service_link l = record {
    uid = some l.uid;
    project_uid = some l.project_uid;
    folder_uid = l.folder_uid;
    name = some l.name;
    url = some l.url;
    description = stated l.description;
    created_by_username = stated l.created_by_username;
    created_at = some (rt.format_rfc3339 l.created_at);
    updated_at = some (rt.format_rfc3339 l.updated_at);
  }

  unfoldable pub to_service_document : ProjectDocument → ApiDocument
  to_service_document d = record {
    uid = some d.uid;
    project_uid = some d.project_uid;
    folder_uid = d.folder_uid;
    name = some d.name;
    description = stated d.description;
    file_name = some d.file_name;
    file_size = some d.file_size;
    content_type = stated d.content_type;
    uploaded_by_username = stated d.uploaded_by_username;
    created_at = some (rt.format_rfc3339 d.created_at);
    updated_at = some (rt.format_rfc3339 d.updated_at);
  }

  module _ {W : Type 0} (s : ProjectsService W) where
    unfoldable pub create_project_folder : CreateProjectFolderPayload → W → Reply ApiFolder × W
    unfolding reply to_service_folder
    create_project_folder p =
        endpoint (to_service_folder) (Folders.create_folder rt s p.uid p.name (run_sync p.x_sync))

    unfoldable pub get_project_folder : GetProjectFolderPayload → W → Reply (ApiFolder × String) × W
    unfolding reply to_service_folder
    get_project_folder p =
        endpoint (λ found. (to_service_folder found.0, found.1))
          (Folders.get_folder rt s p.uid p.folder_uid)

    unfoldable pub delete_project_folder : DeleteProjectFolderPayload → W → Reply (Unit {0}) × W
    unfolding reply
    delete_project_folder p =
        endpoint (λ done. done)
          (Folders.delete_folder rt s p.uid p.folder_uid p.if_match (run_sync p.x_sync))

    unfoldable pub create_project_link : CreateProjectLinkPayload → W → Reply ApiLink × W
    unfolding reply to_service_link nil_str
    create_project_link p = endpoint to_service_link (
        Links.create_link rt s p.uid p.name p.url (nil_str p.description) p.folder_uid
          (run_sync p.x_sync))

    unfoldable pub get_project_link : GetProjectLinkPayload → W → Reply (ApiLink × String) × W
    unfolding reply to_service_link
    get_project_link p =
        endpoint (λ found. (to_service_link found.0, found.1))
          (Links.get_link rt s p.uid p.link_uid)

    unfoldable pub delete_project_link : DeleteProjectLinkPayload → W → Reply (Unit {0}) × W
    unfolding reply
    delete_project_link p =
        endpoint (λ done. done)
          (Links.delete_link rt s p.uid p.link_uid p.if_match (run_sync p.x_sync))

    unfoldable pub upload_project_document :
        UploadProjectDocumentPayload → W → Reply ApiDocument × W
    unfolding reply to_service_document nil_str
    upload_project_document p = endpoint to_service_document (
        Documents.upload_document rt s p.uid p.name (nil_str p.description) p.file_name
          p.content_type p.folder_uid p.file (run_sync p.x_sync))

    unfoldable pub get_project_document :
        GetProjectDocumentPayload → W → Reply (ApiDocument × String) × W
    unfolding reply to_service_document
    get_project_document p =
        endpoint (λ found. (to_service_document found.0, found.1))
          (Documents.get_document_metadata rt s p.uid p.document_uid)

    unfoldable pub download_project_document :
        DownloadProjectDocumentPayload → W → Reply DocumentDownloadBody × W
    unfolding reply
    download_project_document p =
        endpoint
          (λ found. record {
            content = found.0;
            content_type = found.1.content_type;
            file_name = found.1.file_name;
            offset = 0;
          })
          (Documents.get_document_file rt s p.uid p.document_uid)

    unfoldable pub delete_project_document : DeleteProjectDocumentPayload → W → Reply (Unit {0}) × W
    unfolding reply
    delete_project_document p =
        endpoint (λ done. done)
          (Documents.delete_document rt s p.uid p.document_uid p.if_match (run_sync p.x_sync))
