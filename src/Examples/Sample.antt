-- ===== src/Examples/Sample.antt =====
-- Concrete data for the examples: buckets in memory, a runtime whose dates are decimal numbers, and
-- a world with one project, one folder, and a link and a document in it.
use lfx_v2_project_service.Prelude.{String, true, false, not, none, some, [], ◌∷◌, ◌++◌, ◌==◌}
use lfx_v2_project_service.Prelude.Text.{format_uint, parse_uint}
use lfx_v2_project_service.Exec.{ok, err, Exec}
use lfx_v2_project_service.Domain.Error.{user_not_found}
use lfx_v2_project_service.Domain.Model.{
  UserInfo, ProjectBase, ProjectSettings, ProjectFolder, ProjectLink, ProjectDocument,
}
use lfx_v2_project_service.Domain.Message.{Message, indexer, access, event, email, invite}
use lfx_v2_project_service.Domain.Repository.{MessageBuilder, UserReader, UserMetadata}
use lfx_v2_project_service.Nats.Kv.{json, plain}
use lfx_v2_project_service.Nats.Laws.{entry}
use lfx_v2_project_service.Nats.Memory.{Memory, memory, memory_files}
use lfx_v2_project_service.Nats.Repository.{NatsRepository, World}
use lfx_v2_project_service.Service.Runtime.{Runtime}
use lfx_v2_project_service.Service.Core.{ProjectsService, Ready}
use lfx_v2_project_service.Service.Wiring.{wired, wired_parts}

abbrev pub repository : NatsRepository Memory
repository = record {
  projects = memory;
  project_settings = memory;
  links = memory;
  folders = memory;
  documents = memory;
  document_files = memory_files;
}

-- Distinct inputs have distinct digests.
abbrev pub digest : String → String
digest s = s

abbrev pub project_at : (uid slug : String) → ProjectBase
project_at uid slug = record {
  uid = uid;
  slug = slug;
  name = "Zephyr";
  description = "";
  public = false;
  is_foundation = false;
  parent_uid = "";
  stage = "";
  category = "";
  legal_entity_type = "";
  legal_entity_name = "";
  legal_parent_uid = "";
  funding = "";
  funding_model = "Crowdfunding" ∷ [];
  entity_dissolution_date = none;
  entity_formation_document_url = "";
  formation_date = none;
  autojoin_enabled = false;
  charter_url = "";
  logo_url = "";
  website_url = "";
  repository_url = "";
  created_at = some 3;
  updated_at = some 3;
}

abbrev pub zephyr : ProjectBase
zephyr = project_at "u1" "zephyr"

abbrev pub renamed : ProjectBase
renamed = project_at "u1" "zephyr-rtos"

-- A project that has a second source of funding.
abbrev pub mixed : ProjectBase
mixed = record zephyr { funding_model = "Crowdfunding" ∷ "Membership" ∷ [] }

abbrev pub ann : UserInfo
ann = record {
  name = "Ann";
  email = "ann@x.org";
  username = "";
  avatar = "";
  invite = some (record { uid = "i1"; email = "ann@x.org"; expires_at = none });
}

abbrev pub bob : UserInfo
bob = record { name = "Bob"; email = "bob@x.org"; username = "bob"; avatar = ""; invite = none }

abbrev pub zephyr_settings : ProjectSettings
zephyr_settings = record {
  uid = "u1";
  mission_statement = "An RTOS";
  announcement_date = none;
  auditors = [];
  writers = bob ∷ ann ∷ [];
  meeting_coordinators = [];
  executive_director = some bob;
  program_manager = none;
  opportunity_owner = none;
  created_at = some 3;
  updated_at = some 3;
}

abbrev pub minutes : ProjectFolder
minutes = record {
  uid = "f1";
  project_uid = "u1";
  name = "Minutes";
  created_by_username = "bob";
  created_at = 4;
  updated_at = 4;
}

abbrev pub charter_link : ProjectLink
charter_link = record {
  uid = "l1";
  project_uid = "u1";
  folder_uid = some "f1";
  name = "Charter";
  url = "https://x.org/charter";
  description = "";
  created_by_username = "bob";
  created_at = 4;
  updated_at = 4;
}

abbrev pub report : ProjectDocument
report = record {
  uid = "d1";
  project_uid = "u1";
  folder_uid = none;
  name = "Report";
  description = "";
  file_name = "report.pdf";
  file_size = 2;
  content_type = "application/pdf";
  uploaded_by_username = "bob";
  created_at = 4;
  updated_at = 4;
}

abbrev pub empty_bucket : {A : Type 0} → Memory A
empty_bucket = record { entries = []; last = 0 }

abbrev pub empty_world : World Memory
empty_world = record {
  projects = empty_bucket;
  project_settings = empty_bucket;
  links = empty_bucket;
  folders = empty_bucket;
  documents = empty_bucket;
  document_files = empty_bucket;
  outbox = [];
}

abbrev pub projects_with : ProjectBase → Memory ProjectBase
projects_with p = record {
  entries = ("slug/zephyr", entry (plain "u1") 1) ∷ ("u1", entry (json p) 2) ∷ [];
  last = 2;
}

abbrev pub world : World Memory
world = record {
  projects = projects_with zephyr;
  project_settings = record { entries = ("u1", entry (json zephyr_settings) 1) ∷ []; last = 1 };
  links = record {
    entries =
        ("l1", entry (json charter_link) 1)
        ∷ ("lookup/project-links/u1/l1", entry (plain "l1") 2)
        ∷ [];
    last = 2;
  };
  folders = record {
    entries =
        ("lookup/project-folders/u1|Minutes", entry (plain "f1") 1)
        ∷ ("f1", entry (json minutes) 2)
        ∷ [];
    last = 2;
  };
  documents = record {
    entries =
        ("lookup/project-documents/u1|Report", entry (plain "d1") 1)
        ∷ ("d1", entry (json report) 2)
        ∷ [];
    last = 2;
  };
  document_files = record { entries = ("d1", entry (json (37 ∷ 80 ∷ [])) 1) ∷ []; last = 1 };
  outbox = [];
}

-- The same world around a project that may not be deleted.
abbrev pub mixed_world : World Memory
mixed_world = record world { projects = projects_with mixed }

unfoldable pub runtime : Runtime
runtime = record {
  now = 9;
  new_uid = "u2";
  principal = "carol";
  is_uuid = λ s. not (s == "");
  to_lower = λ s. s;
  parse_date_only = parse_uint;
  format_date_only = format_uint;
  parse_rfc3339 = parse_uint;
  format_rfc3339 = format_uint;
  sniff = λ bytes. "application/pdf";
  is_web_url = λ s. true;
  relation_writer = "writer";
  relation_auditor = "auditor";
  relation_meeting_coordinator = "meeting_coordinator";
  relation_parent = "parent";
  object_type_project = "project:";
  update_access_subject = "update_access";
  delete_access_subject = "delete_access";
}

abbrev post : Message → Exec (World Memory) (Unit {0})
post m w = (ok tt, record w { outbox = w.outbox ++ m ∷ [] })

abbrev pub messages : MessageBuilder (World Memory)
messages = record {
  send_indexer_message = λ subject m sync. post (indexer subject m sync);
  send_access_message = λ subject m sync. post (access subject m sync);
  send_project_event_message = λ subject e. post (event subject e);
  send_email_request = λ m. post (email m);
  send_invite_request = λ m w.
      let (_, w') = post (invite m) w in
      (ok (record { invite_uid = "i2"; recipient_email = m.recipient_email; expires_at = 99 }), w');
}

abbrev pub bob_metadata : UserMetadata
bob_metadata = record {
  picture = "b.png";
  zoneinfo = "";
  name = "Bob B.";
  given_name = "Bob";
  family_name = "B.";
  job_title = "";
  organization = "";
  country = "";
  state_province = "";
  city = "";
  address = "";
  postal_code = "";
  phone_number = "";
  t_shirt_size = "";
}

-- Only Bob has an account.
abbrev pub users : UserReader (World Memory)
users = record {
  user_metadata_by_principal = λ username w. ok bob_metadata;
  username_by_email =
      λ email w. elim (email == "bob@x.org") [ true ↦ ok "bob" | false ↦ err user_not_found ];
}

abbrev pub service : ProjectsService (World Memory)
service = wired digest repository messages users false

abbrev pub parts : Ready (World Memory)
parts = wired_parts digest repository messages users false
