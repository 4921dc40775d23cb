-- ===== src/Nats/Repository.antt =====
-- The struct NatsRepository of internal/infrastructure/nats/repository.go, and the world that its
-- methods act on: the buckets' states and what has been handed to the message builder.
use lfx_v2_project_service.Prelude.{ℕ, Bool, false, List}
use lfx_v2_project_service.Exec.{Exec}
use lfx_v2_project_service.Domain.Error.{Error, kv}
use lfx_v2_project_service.Domain.Model.{
  ProjectBase, ProjectSettings, ProjectFolder, ProjectLink, ProjectDocument,
}
use lfx_v2_project_service.Domain.Message.{Message}
use lfx_v2_project_service.Nats.Kv.{KeyValue, ObjectStore, Reply, from_reply}

-- `B A` is the state of a bucket with records `A`.
pub record NatsRepository (B : Type 0 → Type 0) : Type 0 where
  pub projects : KeyValue (B ProjectBase) ProjectBase
  pub project_settings : KeyValue (B ProjectSettings) ProjectSettings
  pub links : KeyValue (B ProjectLink) ProjectLink
  pub folders : KeyValue (B ProjectFolder) ProjectFolder
  pub documents : KeyValue (B ProjectDocument) ProjectDocument
  pub document_files : ObjectStore (B (List ℕ))

pub record World (B : Type 0 → Type 0) : Type 0 where
  pub projects : B ProjectBase
  pub project_settings : B ProjectSettings
  pub links : B ProjectLink
  pub folders : B ProjectFolder
  pub documents : B ProjectDocument
  pub document_files : B (List ℕ)
  pub outbox : List Message

abbrev pub is_key_not_found : Error → Bool
is_key_not_found (kv c) = c.key_not_found
is_key_not_found _ = false

abbrev pub is_key_exists : Error → Bool
is_key_exists (kv c) = c.key_exists
is_key_exists _ = false

-- strings.Contains(err.Error(), "wrong last sequence")
abbrev pub is_wrong_last_sequence : Error → Bool
is_wrong_last_sequence (kv c) = c.wrong_last_sequence
is_wrong_last_sequence _ = false

-- A call on one bucket, as an action on the world.
module _ {B : Type 0 → Type 0} {R : Type 0} where
  abbrev pub on_projects : (B ProjectBase → Reply R × B ProjectBase) → Exec (World B) R
  on_projects op w = let (r, b) = op w.projects in (from_reply r, record w { projects = b })

  abbrev pub on_settings : (B ProjectSettings → Reply R × B ProjectSettings) → Exec (World B) R
  on_settings op w =
      let (r, b) = op w.project_settings in (from_reply r, record w { project_settings = b })

  abbrev pub on_links : (B ProjectLink → Reply R × B ProjectLink) → Exec (World B) R
  on_links op w = let (r, b) = op w.links in (from_reply r, record w { links = b })

  abbrev pub on_folders : (B ProjectFolder → Reply R × B ProjectFolder) → Exec (World B) R
  on_folders op w = let (r, b) = op w.folders in (from_reply r, record w { folders = b })

  abbrev pub on_documents : (B ProjectDocument → Reply R × B ProjectDocument) → Exec (World B) R
  on_documents op w = let (r, b) = op w.documents in (from_reply r, record w { documents = b })

  abbrev pub on_files : (B (List ℕ) → Reply R × B (List ℕ)) → Exec (World B) R
  on_files op w =
      let (r, b) = op w.document_files in (from_reply r, record w { document_files = b })
