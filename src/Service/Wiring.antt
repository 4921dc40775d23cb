-- ===== src/Service/Wiring.antt =====
-- The service as cmd/project-api/main.go wires it: one NatsRepository stands behind the four
-- repository interfaces.
use lfx_v2_project_service.Prelude.{String, Bool, some, ◌≡◌, refl}
use lfx_v2_project_service.Domain.Repository.{MessageBuilder, UserReader}
use lfx_v2_project_service.Nats.Repository.{NatsRepository, World}
use lfx_v2_project_service.Nats.Implementation.{
  project_repository, link_repository, folder_repository, document_repository,
}
use lfx_v2_project_service.Service.Core.{ProjectsService, Ready, service_ready}

module _ {B : Type 0 → Type 0} (sha256_hex : String → String) (s : NatsRepository B)
    (messages : MessageBuilder (World B)) (users : UserReader (World B)) (skip : Bool) where
  abbrev pub wired : ProjectsService (World B)
  wired = record {
    project_repository = some (project_repository s);
    document_repository = some (document_repository sha256_hex s);
    link_repository = some (link_repository s);
    folder_repository = some (folder_repository sha256_hex s);
    message_builder = some messages;
    user_reader = some users;
    skip_etag_validation = skip;
  }

  abbrev pub wired_parts : Ready (World B)
  wired_parts = record {
    projects = project_repository s;
    documents = document_repository sha256_hex s;
    links = link_repository s;
    folders = folder_repository sha256_hex s;
    messages = messages;
    users = users;
    skip_etag_validation = skip;
  }

  pub wired-ready : service_ready wired ≡ some wired_parts
  unfolding service_ready
  wired-ready = refl
