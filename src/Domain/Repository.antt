-- ===== src/Domain/Repository.antt =====
-- The interfaces of internal/domain (repository.go, message.go, user.go), as records of operations
-- on a world `W`. A method that only reads is a function of the world.
use lfx_v2_project_service.Prelude.{ℕ, String, Bool, Option, List}
use lfx_v2_project_service.Exec.{Result, Exec}
use lfx_v2_project_service.Domain.Model.{
  ProjectBase, ProjectSettings, ProjectFolder, ProjectLink, ProjectDocument,
}
use lfx_v2_project_service.Domain.Message.{
  IndexerMessage, AccessMessage, ProjectEvent, EmailRequest, InviteRequest, InviteResult,
}

pub record ProjectRepository (W : Type 0) : Type 0 where
  pub create_project : ProjectBase → Option ProjectSettings → Exec W (Unit {0})
  pub project_exists : String → W → Result Bool
  pub delete_project : String → ℕ → Exec W (Unit {0})
  pub get_project_base : String → W → Result ProjectBase
  pub get_project_base_with_revision : String → W → Result (ProjectBase × ℕ)
  pub update_project_base : ProjectBase → ℕ → Exec W (Unit {0})
  pub get_project_settings : String → W → Result ProjectSettings
  pub get_project_settings_with_revision : String → W → Result (ProjectSettings × ℕ)
  pub update_project_settings : ProjectSettings → ℕ → Exec W (Unit {0})
  pub get_project_uid_from_slug : String → W → Result String
  pub project_slug_exists : String → W → Result Bool
  pub list_all_projects_base : W → Result (List ProjectBase)
  pub list_all_projects_settings : W → Result (List ProjectSettings)
  pub list_all_projects : W → Result (List ProjectBase × List ProjectSettings)

pub record DocumentRepository (W : Type 0) : Type 0 where
  pub get_document_metadata : String → String → W → Result (ProjectDocument × ℕ)
  pub get_document_file : String → W → Result (List ℕ)
  pub list_documents : String → W → Result (List ProjectDocument)
  pub create_document_metadata : ProjectDocument → Exec W (Unit {0})
  pub put_document_file : String → List ℕ → Exec W (Unit {0})
  pub delete_document_metadata : String → String → ℕ → Exec W (Unit {0})
  pub delete_document_file : String → Exec W (Unit {0})
  pub unique_document_name : ProjectDocument → Exec W String
  pub delete_unique_document_name : String → Exec W (Unit {0})

pub record LinkRepository (W : Type 0) : Type 0 where
  pub get_link : String → String → W → Result (ProjectLink × ℕ)
  pub list_links : String → W → Result (List ProjectLink)
  pub create_link : ProjectLink → Exec W (Unit {0})
  pub delete_link : String → String → ℕ → Exec W (Unit {0})

pub record FolderRepository (W : Type 0) : Type 0 where
  pub get_folder : String → String → W → Result (ProjectFolder × ℕ)
  pub create_folder : ProjectFolder → Exec W (Unit {0})
  pub delete_folder : String → String → ℕ → Exec W (Unit {0})
  pub unique_folder_name : ProjectFolder → Exec W String
  pub delete_unique_folder_name : String → Exec W (Unit {0})

pub record MessageBuilder (W : Type 0) : Type 0 where
  pub send_indexer_message : String → IndexerMessage → Bool → Exec W (Unit {0})
  pub send_access_message : String → AccessMessage → Bool → Exec W (Unit {0})
  pub send_project_event_message : String → ProjectEvent → Exec W (Unit {0})
  pub send_email_request : EmailRequest → Exec W (Unit {0})
  pub send_invite_request : InviteRequest → Exec W InviteResult

pub record UserMetadata : Type 0 where
  pub picture : String
  pub zoneinfo : String
  pub name : String
  pub given_name : String
  pub family_name : String
  pub job_title : String
  pub organization : String
  pub country : String
  pub state_province : String
  pub city : String
  pub address : String
  pub postal_code : String
  pub phone_number : String
  pub t_shirt_size : String

pub record UserReader (W : Type 0) : Type 0 where
  pub user_metadata_by_principal : String → W → Result UserMetadata
  pub username_by_email : String → W → Result String
