-- ===== src/Service/Api.antt =====
-- The payloads and results of the service's API, which are generated from api/project/v1/design
-- into api/project/v1/gen/project_service/service.go. A pointer is an option, a slice is a list.
-- The bearer token and the version of a payload are not read by the service.
use lfx_v2_project_service.Prelude.{String, Bool, Option, List}

pub record ApiInvite : Type 0 where
  pub uid : Option String
  pub email : Option String
  pub expires_at : Option String

pub record ApiUser : Type 0 where
  pub name : Option String
  pub email : Option String
  pub username : Option String
  pub avatar : Option String
  pub invite : Option ApiInvite

-- []*UserInfo
abbrev pub Users : Type 0
Users = List (Option ApiUser)

pub record ApiProjectBase : Type 0 where
  pub uid : Option String
  pub slug : Option String
  pub description : Option String
  pub name : Option String
  pub parent_uid : Option String
  pub public : Option Bool
  pub is_foundation : Option Bool
  pub stage : Option String
  pub category : Option String
  pub funding : Option String
  pub funding_model : List String
  pub charter_url : Option String
  pub legal_entity_type : Option String
  pub legal_entity_name : Option String
  pub legal_parent_uid : Option String
  pub entity_dissolution_date : Option String
  pub entity_formation_document_url : Option String
  pub autojoin_enabled : Option Bool
  pub formation_date : Option String
  pub logo_url : Option String
  pub repository_url : Option String
  pub website_url : Option String
  pub created_at : Option String
  pub updated_at : Option String

pub record ApiProjectSettings : Type 0 where
  pub uid : Option String
  pub mission_statement : Option String
  pub announcement_date : Option String
  pub writers : Users
  pub meeting_coordinators : Users
  pub auditors : Users
  pub executive_director : Option ApiUser
  pub program_manager : Option ApiUser
  pub opportunity_owner : Option ApiUser
  pub created_at : Option String
  pub updated_at : Option String

pub record ProjectFull : Type 0 where
  pub uid : Option String
  pub slug : Option String
  pub description : Option String
  pub name : Option String
  pub parent_uid : Option String
  pub public : Option Bool
  pub is_foundation : Option Bool
  pub stage : Option String
  pub category : Option String
  pub funding : Option String
  pub funding_model : List String
  pub charter_url : Option String
  pub legal_entity_type : Option String
  pub legal_entity_name : Option String
  pub legal_parent_uid : Option String
  pub entity_dissolution_date : Option String
  pub entity_formation_document_url : Option String
  pub autojoin_enabled : Option Bool
  pub formation_date : Option String
  pub logo_url : Option String
  pub repository_url : Option String
  pub website_url : Option String
  pub created_at : Option String
  pub updated_at : Option String
  pub mission_statement : Option String
  pub announcement_date : Option String
  pub writers : Users
  pub meeting_coordinators : Users
  pub auditors : Users
  pub executive_director : Option ApiUser
  pub program_manager : Option ApiUser
  pub opportunity_owner : Option ApiUser

pub record CreateProjectPayload : Type 0 where
  pub x_sync : Option Bool
  pub slug : String
  pub description : String
  pub name : String
  pub parent_uid : String
  pub public : Option Bool
  pub is_foundation : Option Bool
  pub stage : Option String
  pub category : Option String
  pub funding : Option String
  pub funding_model : List String
  pub charter_url : Option String
  pub legal_entity_type : Option String
  pub legal_entity_name : Option String
  pub legal_parent_uid : Option String
  pub entity_dissolution_date : Option String
  pub entity_formation_document_url : Option String
  pub autojoin_enabled : Option Bool
  pub formation_date : Option String
  pub logo_url : Option String
  pub repository_url : Option String
  pub website_url : Option String
  pub mission_statement : Option String
  pub announcement_date : Option String
  pub writers : Users
  pub meeting_coordinators : Users
  pub auditors : Users
  pub executive_director : Option ApiUser
  pub program_manager : Option ApiUser
  pub opportunity_owner : Option ApiUser

pub record UpdateProjectBasePayload : Type 0 where
  pub x_sync : Option Bool
  pub if_match : Option String
  pub uid : Option String
  pub slug : String
  pub description : String
  pub name : String
  pub parent_uid : String
  pub public : Option Bool
  pub is_foundation : Option Bool
  pub stage : Option String
  pub category : Option String
  pub funding : Option String
  pub funding_model : List String
  pub charter_url : Option String
  pub legal_entity_type : Option String
  pub legal_entity_name : Option String
  pub legal_parent_uid : Option String
  pub entity_dissolution_date : Option String
  pub entity_formation_document_url : Option String
  pub autojoin_enabled : Option Bool
  pub formation_date : Option String
  pub logo_url : Option String
  pub repository_url : Option String
  pub website_url : Option String

pub record UpdateProjectSettingsPayload : Type 0 where
  pub x_sync : Option Bool
  pub if_match : Option String
  pub uid : Option String
  pub mission_statement : Option String
  pub announcement_date : Option String
  pub writers : Users
  pub meeting_coordinators : Users
  pub auditors : Users
  pub executive_director : Option ApiUser
  pub program_manager : Option ApiUser
  pub opportunity_owner : Option ApiUser

pub record DeleteProjectPayload : Type 0 where
  pub x_sync : Option Bool
  pub if_match : Option String
  pub uid : Option String
