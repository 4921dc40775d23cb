-- ===== src/Service/Core.antt =====
-- internal/service/project_service.go: the struct of the service and its readiness; and what its
-- operations share: the If-Match header, x-sync, background sends and groups of goroutines.
use lfx_v2_project_service.Prelude.{
  ℕ, String, Bool, true, false, ◌&&◌, Option, none, some, List, [], ◌∷◌,
}
use lfx_v2_project_service.Prelude.Text.{parse_uint}
use lfx_v2_project_service.Exec.{
  Result, Exec, pure, raise, read, guard, try, is_ok, from_option, ◌>>=◌, ◌>>◌,
}
use lfx_v2_project_service.Domain.Error.{service_unavailable, validation_failed, internal}
use lfx_v2_project_service.Domain.Repository.{
  ProjectRepository, DocumentRepository, LinkRepository, FolderRepository, MessageBuilder,
  UserReader,
}

pub record ProjectsService (W : Type 0) : Type 0 where
  pub project_repository : Option (ProjectRepository W)
  pub document_repository : Option (DocumentRepository W)
  pub link_repository : Option (LinkRepository W)
  pub folder_repository : Option (FolderRepository W)
  pub message_builder : Option (MessageBuilder W)
  pub user_reader : Option (UserReader W)
  pub skip_etag_validation : Bool

-- The same components, none of them nil.
pub record Ready (W : Type 0) : Type 0 where
  pub projects : ProjectRepository W
  pub documents : DocumentRepository W
  pub links : LinkRepository W
  pub folders : FolderRepository W
  pub messages : MessageBuilder W
  pub users : UserReader W
  pub skip_etag_validation : Bool

abbrev and_then : {A B : Type 0} → Option A → (A → Option B) → Option B
and_then none f = none
and_then (some a) f = f a

module _ {W : Type 0} where
  -- ServiceReady, with the components that it found
  unfoldable pub service_ready : ProjectsService W → Option (Ready W)
  service_ready s = and_then s.project_repository λ projects. and_then s.message_builder λ messages.
      and_then s.document_repository λ documents. and_then s.link_repository λ links.
        and_then s.folder_repository λ folders. and_then s.user_reader λ users. some (record {
          projects = projects;
          documents = documents;
          links = links;
          folders = folders;
          messages = messages;
          users = users;
          skip_etag_validation = s.skip_etag_validation;
        })

  -- `if !s.ServiceReady() { return domain.ErrServiceUnavailable }`
  abbrev pub when_ready : {A : Type 0} → ProjectsService W → (Ready W → Exec W A) → Exec W A
  when_ready s body = elim (service_ready s) [ none ↦ raise service_unavailable | some r ↦ body r ]

  -- The revision in the If-Match header.
  unfoldable pub if_match_revision : Option String → Exec W ℕ
  if_match_revision if_match = do
    etag ← from_option validation_failed if_match
    from_option validation_failed (parse_uint etag)

  -- `if !SkipEtagValidation { the header's revision } else { the stored revision }`
  abbrev pub checked_revision :
      {A : Type 0} → Bool → Option String → (W → Result (A × ℕ)) → Exec W ℕ
  checked_revision false if_match stored = if_match_revision if_match
  checked_revision true if_match stored = do found ← read stored; pure found.1

  -- errgroup: every goroutine runs; Wait returns an error if one of them failed.
  unfoldable pub wait_all : List (Exec W (Unit {0})) → Exec W Bool
  wait_all [] = pure true
  wait_all (m ∷ ms) = do first ← try m; others ← wait_all ms; pure (is_ok first && others)

  abbrev pub wait_group : List (Exec W (Unit {0})) → Exec W (Unit {0})
  wait_group ms = do done ← wait_all ms; guard done internal

  -- A send in a goroutine that nobody waits for; its error is only logged.
  abbrev pub background : Exec W (Unit {0}) → Exec W (Unit {0})
  background m = do try m; pure tt

  -- `if xSync { if err := send(true); err != nil { return err } } else { go send(false) }`
  abbrev pub send_sync : Bool → (Bool → Exec W (Unit {0})) → Exec W (Unit {0})
  send_sync true send = send true
  send_sync false send = background (send false)

-- `runSync := false; if payload.XSync != nil { runSync = *payload.XSync }`
abbrev pub run_sync : Option Bool → Bool
run_sync none = false
run_sync (some b) = b
