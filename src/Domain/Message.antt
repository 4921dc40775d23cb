-- ===== src/Domain/Message.antt =====
-- The messages that the service sends: the indexer envelopes with the indexing configurations of
-- internal/domain/models, the access messages, and the events of pkg/events/project.go.
use lfx_v2_project_service.Prelude.{
  ℕ, String, Bool, Option, none, some, List, [], ◌∷◌, ◌++◌, ◌==◌, if◌then◌else◌,
}
use lfx_v2_project_service.Prelude.Text.{sprintf}
use lfx_v2_project_service.Domain.Model.{
  Time, ProjectBase, ProjectSettings, ProjectFolder, ProjectLink, ProjectDocument,
}

pub data Action : Type 0 where
  created updated deleted : Action

pub record IndexingConfig : Type 0 where
  pub object_id : String
  pub public : Option Bool
  pub access_check_object : String
  pub access_check_relation : String
  pub history_check_object : String
  pub history_check_relation : String
  pub sort_name : String
  pub name_and_aliases : List String
  pub parent_refs : List String
  pub fulltext : String
  pub tags : List String

-- `if field != "" { tags = append(tags, tag) }`
abbrev pub tag_if : String → String → List String
tag_if field tag = if field == "" then [] else tag ∷ []

-- The same for a pointer field, with the tag's prefix.
abbrev pub tag_ptr : Option String → String → List String
tag_ptr none format = []
tag_ptr (some v) format = tag_if v (sprintf format v)

-- ProjectFolder.Tags
folder_tags : ProjectFolder → List String
folder_tags f =
    tag_if f.uid f.uid
    ++ tag_if f.uid (sprintf "project_folder_uid:" f.uid)
    ++ tag_if f.project_uid (sprintf "project_uid:" f.project_uid)

-- ProjectFolder.IndexingConfig
unfoldable pub folder_indexing_config : ProjectFolder → IndexingConfig
unfolding folder_tags
folder_indexing_config f = record {
  object_id = f.uid;
  public = none;
  access_check_object = sprintf "project:" f.project_uid;
  access_check_relation = "viewer";
  history_check_object = sprintf "project:" f.project_uid;
  history_check_relation = "auditor";
  sort_name = f.name;
  name_and_aliases = [];
  parent_refs = sprintf "project:" f.project_uid ∷ [];
  fulltext = "";
  tags = folder_tags f;
}

-- ProjectLink.Tags
link_tags : ProjectLink → List String
link_tags l =
    tag_if l.uid l.uid
    ++ tag_if l.uid (sprintf "project_link_uid:" l.uid)
    ++ tag_if l.project_uid (sprintf "project_uid:" l.project_uid)
    ++ tag_ptr l.folder_uid "folder_uid:"

-- ProjectLink.IndexingConfig
unfoldable pub link_indexing_config : ProjectLink → IndexingConfig
unfolding link_tags
link_indexing_config l = record {
  object_id = l.uid;
  public = none;
  access_check_object = sprintf "project:" l.project_uid;
  access_check_relation = "viewer";
  history_check_object = sprintf "project:" l.project_uid;
  history_check_relation = "auditor";
  sort_name = l.name;
  name_and_aliases = [];
  parent_refs = sprintf "project:" l.project_uid ∷ [];
  fulltext = "";
  tags = link_tags l;
}

-- ProjectDocument.Tags
document_tags : ProjectDocument → List String
document_tags d =
    tag_if d.uid d.uid
    ++ tag_if d.uid (sprintf "project_document_uid:" d.uid)
    ++ tag_if d.project_uid (sprintf "project_uid:" d.project_uid)
    ++ tag_ptr d.folder_uid "folder_uid:"
    ++ tag_if d.content_type (sprintf "content_type:" d.content_type)
    ++ tag_if d.uploaded_by_username (sprintf "uploaded_by:" d.uploaded_by_username)

-- ProjectDocument.IndexingConfig
unfoldable pub document_indexing_config : ProjectDocument → IndexingConfig
unfolding document_tags
document_indexing_config d = record {
  object_id = d.uid;
  public = none;
  access_check_object = sprintf "project:" d.project_uid;
  access_check_relation = "viewer";
  history_check_object = sprintf "project:" d.project_uid;
  history_check_relation = "auditor";
  sort_name = d.name;
  name_and_aliases = [];
  parent_refs = sprintf "project:" d.project_uid ∷ [];
  fulltext = "";
  tags = document_tags d;
}

-- ProjectBase.FulltextTemplatized: strings.Join(fulltext, " ")
abbrev join : List String → String
join [] = ""
join (x ∷ []) = x
join (x ∷ y ∷ r) = sprintf x (sprintf " " (join (y ∷ r)))

fulltext_templatized : ProjectBase → String
fulltext_templatized p = join (
    tag_if p.name "{{ name }}"
    ++ tag_if p.slug "{{ slug }}"
    ++ tag_if p.description "{{ description }}")

-- ProjectBase.NameAndAliasesTemplatized
name_and_aliases_templatized : ProjectBase → List String
name_and_aliases_templatized p = tag_if p.name "{{ name }}" ++ tag_if p.slug "{{ slug }}"

-- ProjectBase.IndexingConfig
unfoldable pub base_indexing_config : ProjectBase → IndexingConfig
unfolding fulltext_templatized name_and_aliases_templatized
base_indexing_config p = record {
  object_id = "{{ uid }}";
  public = some p.public;
  access_check_object = sprintf "project:" "{{ uid }}";
  access_check_relation = "viewer";
  history_check_object = sprintf "project:" "{{ uid }}";
  history_check_relation = "writer";
  sort_name = "{{ name }}";
  name_and_aliases = name_and_aliases_templatized p;
  parent_refs = tag_if p.parent_uid (sprintf "project:" "{{ parent_uid }}");
  fulltext = fulltext_templatized p;
  tags = tag_if p.slug "project_slug:{{ slug }}";
}

-- ProjectSettings.TagsTemplatized
settings_tags_templatized : ProjectSettings → List String
settings_tags_templatized p =
    tag_if p.uid "{{ uid }}" ++ tag_if p.mission_statement "{{ mission_statement }}"

-- ProjectSettings.IndexingConfig
unfoldable pub settings_indexing_config : ProjectSettings → String → IndexingConfig
unfolding settings_tags_templatized
settings_indexing_config p project_uid = record {
  object_id = "{{ uid }}";
  public = none;
  access_check_object = sprintf "project:" project_uid;
  access_check_relation = "auditor";
  history_check_object = sprintf "project:" project_uid;
  history_check_relation = "writer";
  sort_name = "";
  name_and_aliases = [];
  parent_refs = tag_if p.uid (sprintf "project:" "{{ uid }}");
  fulltext = "";
  tags = settings_tags_templatized p;
}

-- The `Data` of an indexer envelope.
pub data Body : Type 0 where
  base : ProjectBase → Body
  settings : ProjectSettings → Body
  folder : ProjectFolder → Body
  link : ProjectLink → Body
  document : ProjectDocument → Body
  uid : String → Body

-- An envelope, or the bare UID that is sent when a project is deleted.
pub data IndexerMessage : Type 0 where
  envelope : Action → Body → IndexingConfig → IndexerMessage
  bare : String → IndexerMessage

-- The `Data` of a GenericFGAMessage: GenericAccessData or GenericDeleteData.
pub data AccessData : Type 0 where
  access_of :
      (uid : String) (public : Bool) (relations references : List (String × List String))
      → AccessData
  delete_of : (uid : String) → AccessData

pub record AccessMessage : Type 0 where
  pub object_type : String
  pub operation : String
  pub content : AccessData

pub record Actor : Type 0 where
  pub username : String
  pub name : String
  pub email : String

pub record ProjectSettingsUpdated : Type 0 where
  pub project_uid : String
  pub old_settings : ProjectSettings
  pub new_settings : ProjectSettings
  pub actor : Actor

pub record DocumentCreated : Type 0 where
  pub project_uid : String
  pub document_uid : String
  pub name : String
  pub file_name : String
  pub folder_uid : String
  pub created_by : String

pub record LinkCreated : Type 0 where
  pub project_uid : String
  pub link_uid : String
  pub name : String
  pub url : String
  pub folder_uid : String
  pub created_by : String

pub data ProjectEvent : Type 0 where
  settings_updated : ProjectSettingsUpdated → ProjectEvent
  document_created : DocumentCreated → ProjectEvent
  link_created : LinkCreated → ProjectEvent

-- A request to the email service (SendEmailRequest of lfx-v2-email-service).
pub record EmailRequest : Type 0 where
  pub to : String
  pub subject : String
  pub html : String
  pub text : String

-- A request to the invite service: SendInviteRequest of lfx-v2-invite-service with the fields of its
-- recipient, inviter and resource.
pub record InviteRequest : Type 0 where
  pub recipient_email : String
  pub recipient_name : String
  pub inviter_name : String
  pub resource_uid : String
  pub resource_name : String
  pub resource_type : String
  pub role : String
  pub return_url : String
  pub expiration_days : ℕ

pub record InviteResult : Type 0 where
  pub invite_uid : String
  pub recipient_email : String
  pub expires_at : Time

-- A message with its subject, and with `sync` where the sender may wait for an acknowledgement, or a
-- request to another service.
pub data Message : Type 0 where
  indexer : (subject : String) → IndexerMessage → (sync : Bool) → Message
  access : (subject : String) → AccessMessage → (sync : Bool) → Message
  event : (subject : String) → ProjectEvent → Message
  email : EmailRequest → Message
  invite : InviteRequest → Message
