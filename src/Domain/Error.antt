-- ===== src/Domain/Error.antt =====
-- internal/domain/errors.go, and the errors of the NATS client that the repository passes on as
-- they are.
use lfx_v2_project_service.Prelude.{Bool, true, false}

-- An error of the JetStream client, as the code observes it: errors.Is(err, ErrKeyNotFound),
-- errors.Is(err, ErrKeyExists) and strings.Contains(err.Error(), "wrong last sequence").
pub record KvError : Type 0 where
  pub key_not_found : Bool
  pub key_exists : Bool
  pub wrong_last_sequence : Bool

pub data Error : Type 0 where
  project_not_found invalid_parent_project project_slug_exists : Error
  internal revision_mismatch unmarshal service_unavailable validation_failed : Error
  cannot_delete_non_crowdfunding_project archived_requires_dissolution_date : Error
  document_not_found document_name_exists invalid_content_type file_too_large : Error
  link_not_found folder_not_found folder_name_exists folder_not_empty : Error
  user_not_found : Error
  -- an error of the JetStream client, of encoding/json or package time, of a message or a remote
  -- call, and any other error that no code tests
  kv : KvError → Error
  json time_parse remote other : Error

-- errors.Is(err, domain.ErrProjectNotFound), and so on for the sentinels that the code tests.
abbrev pub is_project_not_found : Error → Bool
is_project_not_found project_not_found = true
is_project_not_found _ = false

abbrev pub is_project_slug_exists : Error → Bool
is_project_slug_exists project_slug_exists = true
is_project_slug_exists _ = false

abbrev pub is_revision_mismatch : Error → Bool
is_revision_mismatch revision_mismatch = true
is_revision_mismatch _ = false

abbrev pub is_document_not_found : Error → Bool
is_document_not_found document_not_found = true
is_document_not_found _ = false

abbrev pub is_link_not_found : Error → Bool
is_link_not_found link_not_found = true
is_link_not_found _ = false

abbrev pub is_folder_not_found : Error → Bool
is_folder_not_found folder_not_found = true
is_folder_not_found _ = false

abbrev pub is_user_not_found : Error → Bool
is_user_not_found user_not_found = true
is_user_not_found _ = false
