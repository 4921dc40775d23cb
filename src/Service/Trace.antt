-- ===== src/Service/Trace.antt =====
-- A service that keeps a record of its calls: of the settings that it asks the repository to write, and
-- of the messages that it asks the message builder to send, the latest first. A call is recorded
-- whether it succeeds or fails.
use lfx_v2_project_service.Prelude.{List, ◌∷◌}
use lfx_v2_project_service.Exec.{Result, Exec}
use lfx_v2_project_service.Domain.Model.{ProjectSettings}
use lfx_v2_project_service.Domain.Message.{Message, indexer, access, event, email, invite}
use lfx_v2_project_service.Domain.Repository.{
  ProjectRepository, DocumentRepository, LinkRepository, FolderRepository, MessageBuilder,
  UserReader,
}
use lfx_v2_project_service.Service.Core.{Ready}

pub data Call : Type 0 where
  saved : ProjectSettings → Call
  sent : Message → Call

abbrev pub Traced : Type 0 → Type 0
Traced W = W × List Call

module _ {W A : Type 0} where
  abbrev pub seen : (W → Result A) → Traced W → Result A
  seen f s = f s.0

  abbrev pub quiet : Exec W A → Exec (Traced W) A
  quiet m s = let (r, w') = m s.0 in (r, (w', s.1))

  abbrev pub noted : Call → Exec W A → Exec (Traced W) A
  noted c m s = let (r, w') = m s.0 in (r, (w', c ∷ s.1))

module _ {W : Type 0} where
  traced_projects : ProjectRepository W → ProjectRepository (Traced W)
  traced_projects p = record {
    create_project = λ base settings. quiet (p.create_project base settings);
    project_exists = λ uid. seen (p.project_exists uid);
    delete_project = λ uid revision. quiet (p.delete_project uid revision);
    get_project_base = λ uid. seen (p.get_project_base uid);
    get_project_base_with_revision = λ uid. seen (p.get_project_base_with_revision uid);
    update_project_base = λ base revision. quiet (p.update_project_base base revision);
    get_project_settings = λ uid. seen (p.get_project_settings uid);
    get_project_settings_with_revision = λ uid. seen (p.get_project_settings_with_revision uid);
    update_project_settings = λ s revision. noted (saved s) (p.update_project_settings s revision);
    get_project_uid_from_slug = λ slug. seen (p.get_project_uid_from_slug slug);
    project_slug_exists = λ slug. seen (p.project_slug_exists slug);
    list_all_projects_base = seen p.list_all_projects_base;
    list_all_projects_settings = seen p.list_all_projects_settings;
    list_all_projects = seen p.list_all_projects;
  }

  traced_documents : DocumentRepository W → DocumentRepository (Traced W)
  traced_documents d = record {
    get_document_metadata = λ project_uid uid. seen (d.get_document_metadata project_uid uid);
    get_document_file = λ uid. seen (d.get_document_file uid);
    list_documents = λ project_uid. seen (d.list_documents project_uid);
    create_document_metadata = λ m. quiet (d.create_document_metadata m);
    put_document_file = λ uid file. quiet (d.put_document_file uid file);
    delete_document_metadata =
        λ project_uid uid revision. quiet (d.delete_document_metadata project_uid uid revision);
    delete_document_file = λ uid. quiet (d.delete_document_file uid);
    unique_document_name = λ m. quiet (d.unique_document_name m);
    delete_unique_document_name = λ key. quiet (d.delete_unique_document_name key);
  }

  traced_links : LinkRepository W → LinkRepository (Traced W)
  traced_links l = record {
    get_link = λ project_uid uid. seen (l.get_link project_uid uid);
    list_links = λ project_uid. seen (l.list_links project_uid);
    create_link = λ m. quiet (l.create_link m);
    delete_link = λ project_uid uid revision. quiet (l.delete_link project_uid uid revision);
  }

  traced_folders : FolderRepository W → FolderRepository (Traced W)
  traced_folders f = record {
    get_folder = λ project_uid uid. seen (f.get_folder project_uid uid);
    create_folder = λ m. quiet (f.create_folder m);
    delete_folder = λ project_uid uid revision. quiet (f.delete_folder project_uid uid revision);
    unique_folder_name = λ m. quiet (f.unique_folder_name m);
    delete_unique_folder_name = λ key. quiet (f.delete_unique_folder_name key);
  }

  traced_messages : MessageBuilder W → MessageBuilder (Traced W)
  traced_messages m = record {
    send_indexer_message = λ subject msg sync.
        noted (sent (indexer subject msg sync)) (m.send_indexer_message subject msg sync);
    send_access_message = λ subject msg sync.
        noted (sent (access subject msg sync)) (m.send_access_message subject msg sync);
    send_project_event_message =
        λ subject msg. noted (sent (event subject msg)) (m.send_project_event_message subject msg);
    send_email_request = λ req. noted (sent (email req)) (m.send_email_request req);
    send_invite_request = λ req. noted (sent (invite req)) (m.send_invite_request req);
  }

  traced_users : UserReader W → UserReader (Traced W)
  traced_users u = record {
    user_metadata_by_principal = λ principal. seen (u.user_metadata_by_principal principal);
    username_by_email = λ email. seen (u.username_by_email email);
  }

  unfoldable pub traced : Ready W → Ready (Traced W)
  unfolding traced_projects traced_documents traced_links traced_folders traced_messages
      traced_users
  traced r = record {
    projects = traced_projects r.projects;
    documents = traced_documents r.documents;
    links = traced_links r.links;
    folders = traced_folders r.folders;
    messages = traced_messages r.messages;
    users = traced_users r.users;
    skip_etag_validation = r.skip_etag_validation;
  }
