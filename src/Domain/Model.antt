-- ===== src/Domain/Model.antt =====
-- internal/domain/models: the records that the key-value buckets hold. A slice is a list, since the
-- code treats a nil slice and an empty one alike; a pointer is an option. An instant is the number of
-- nanoseconds since the zero time.Time; parsing and printing it are operations of `Runtime`.
use lfx_v2_project_service.Prelude.{ℕ, String, Bool, Option, List}

abbrev pub Time : Type 0
Time = ℕ

pub record InviteInfo : Type 0 where
  pub uid : String
  pub email : String
  pub expires_at : Option Time

pub record UserInfo : Type 0 where
  pub name : String
  pub email : String
  pub username : String
  pub avatar : String
  pub invite : Option InviteInfo

pub record ProjectBase : Type 0 where
  pub uid : String
  pub slug : String
  pub name : String
  pub description : String
  pub public : Bool
  pub is_foundation : Bool
  pub parent_uid : String
  pub stage : String
  pub category : String
  pub legal_entity_type : String
  pub legal_entity_name : String
  pub legal_parent_uid : String
  pub funding : String
  pub funding_model : List String
  pub entity_dissolution_date : Option Time
  pub entity_formation_document_url : String
  pub formation_date : Option Time
  pub autojoin_enabled : Bool
  pub charter_url : String
  pub logo_url : String
  pub website_url : String
  pub repository_url : String
  pub created_at : Option Time
  pub updated_at : Option Time

pub record ProjectSettings : Type 0 where
  pub uid : String
  pub mission_statement : String
  pub announcement_date : Option Time
  pub auditors : List UserInfo
  pub writers : List UserInfo
  pub meeting_coordinators : List UserInfo
  pub executive_director : Option UserInfo
  pub program_manager : Option UserInfo
  pub opportunity_owner : Option UserInfo
  pub created_at : Option Time
  pub updated_at : Option Time

pub record ProjectFolder : Type 0 where
  pub uid : String
  pub project_uid : String
  pub name : String
  pub created_by_username : String
  pub created_at : Time
  pub updated_at : Time

pub record ProjectLink : Type 0 where
  pub uid : String
  pub project_uid : String
  pub folder_uid : Option String
  pub name : String
  pub url : String
  pub description : String
  pub created_by_username : String
  pub created_at : Time
  pub updated_at : Time

pub record ProjectDocument : Type 0 where
  pub uid : String
  pub project_uid : String
  pub folder_uid : Option String
  pub name : String
  pub description : String
  pub file_name : String
  pub file_size : ℕ
  pub content_type : String
  pub uploaded_by_username : String
  pub created_at : Time
  pub updated_at : Time
