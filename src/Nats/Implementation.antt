-- ===== src/Nats/Implementation.antt =====
-- NatsRepository implements the repository interfaces of internal/domain/repository.go, as
-- cmd/project-api/main.go wires them.
use lfx_v2_project_service.Prelude.{String}
use lfx_v2_project_service.Domain.Repository.{
  ProjectRepository, DocumentRepository, LinkRepository, FolderRepository,
}
use lfx_v2_project_service.Nats.Repository.{NatsRepository, World}
use lfx_v2_project_service.Nats.Projects
use lfx_v2_project_service.Nats.Links
use lfx_v2_project_service.Nats.Folders
use lfx_v2_project_service.Nats.Documents

module _ {B : Type 0 → Type 0} (s : NatsRepository B) where
  abbrev pub project_repository : ProjectRepository (World B)
  project_repository = record {
    create_project = Projects.create_project s;
    project_exists = Projects.project_exists s;
    delete_project = Projects.delete_project s;
    get_project_base = Projects.get_project_base s;
    get_project_base_with_revision = Projects.get_project_base_with_revision s;
    update_project_base = Projects.update_project_base s;
    get_project_settings = Projects.get_project_settings s;
    get_project_settings_with_revision = Projects.get_project_settings_with_revision s;
    update_project_settings = Projects.update_project_settings s;
    get_project_uid_from_slug = Projects.get_project_uid_from_slug s;
    project_slug_exists = Projects.project_slug_exists_in s;
    list_all_projects_base = Projects.list_all_projects_base s;
    list_all_projects_settings = Projects.list_all_projects_settings s;
    list_all_projects = Projects.list_all_projects s;
  }

  abbrev pub link_repository : LinkRepository (World B)
  link_repository = record {
    get_link = Links.get_link s;
    list_links = Links.list_links s;
    create_link = Links.create_link s;
    delete_link = Links.delete_link s;
  }

module _ {B : Type 0 → Type 0} (sha256_hex : String → String) (s : NatsRepository B) where
  abbrev pub folder_repository : FolderRepository (World B)
  folder_repository = record {
    get_folder = Folders.get_folder sha256_hex s;
    create_folder = Folders.create_folder sha256_hex s;
    delete_folder = Folders.delete_folder sha256_hex s;
    unique_folder_name = Folders.unique_folder_name sha256_hex s;
    delete_unique_folder_name = Folders.delete_unique_folder_name sha256_hex s;
  }

  abbrev pub document_repository : DocumentRepository (World B)
  document_repository = record {
    get_document_metadata = Documents.get_document_metadata sha256_hex s;
    get_document_file = Documents.get_document_file sha256_hex s;
    list_documents = Documents.list_documents sha256_hex s;
    create_document_metadata = Documents.create_document_metadata sha256_hex s;
    put_document_file = Documents.put_document_file sha256_hex s;
    delete_document_metadata = Documents.delete_document_metadata sha256_hex s;
    delete_document_file = Documents.delete_document_file sha256_hex s;
    unique_document_name = Documents.unique_document_name sha256_hex s;
    delete_unique_document_name = Documents.delete_unique_document_name sha256_hex s;
  }
