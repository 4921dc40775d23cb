-- ===== src/Http/Payloads.antt =====
-- The payloads and results of api/project/v1/gen/project_service/service.go for folders, links and
-- documents. The bearer token and the version of a payload are not read by the endpoints.
use lfx_v2_project_service.Prelude.{ℕ, String, Bool, Option, List}

pub record ApiFolder : Type 0 where
  pub uid : Option String
  pub project_uid : Option String
  pub name : Option String
  pub created_by_username : Option String
  pub created_at : Option String
  pub updated_at : Option String

pub record ApiLink : Type 0 where
  pub uid : Option String
  pub project_uid : Option String
  pub folder_uid : Option String
  pub name : Option String
  pub url : Option String
  pub description : Option String
  pub created_by_username : Option String
  pub created_at : Option String
  pub updated_at : Option String

pub record ApiDocument : Type 0 where
  pub uid : Option String
  pub project_uid : Option String
  pub folder_uid : Option String
  pub name : Option String
  pub description : Option String
  pub file_name : Option String
  pub file_size : Option ℕ
  pub content_type : Option String
  pub uploaded_by_username : Option String
  pub created_at : Option String
  pub updated_at : Option String

pub record CreateProjectFolderPayload : Type 0 where
  pub x_sync : Option Bool
  pub uid : String
  pub name : String

pub record CreateProjectLinkPayload : Type 0 where
  pub x_sync : Option Bool
  pub uid : String
  pub name : String
  pub url : String
  pub description : Option String
  pub folder_uid : Option String

pub record UploadProjectDocumentPayload : Type 0 where
  pub x_sync : Option Bool
  pub uid : String
  pub name : String
  pub description : Option String
  pub folder_uid : Option String
  pub file : List ℕ
  pub file_name : String
  pub content_type : String

pub record GetProjectFolderPayload : Type 0 where
  pub uid : String
  pub folder_uid : String

pub record GetProjectLinkPayload : Type 0 where
  pub uid : String
  pub link_uid : String

pub record GetProjectDocumentPayload : Type 0 where
  pub uid : String
  pub document_uid : String

pub record DownloadProjectDocumentPayload : Type 0 where
  pub uid : String
  pub document_uid : String

pub record DeleteProjectFolderPayload : Type 0 where
  pub x_sync : Option Bool
  pub if_match : Option String
  pub uid : String
  pub folder_uid : String

pub record DeleteProjectLinkPayload : Type 0 where
  pub x_sync : Option Bool
  pub if_match : Option String
  pub uid : String
  pub link_uid : String

pub record DeleteProjectDocumentPayload : Type 0 where
  pub x_sync : Option Bool
  pub if_match : Option String
  pub uid : String
  pub document_uid : String
