-- ===== src/Scripts/AdminDelete/Audit.antt =====
-- The reads before any write in scripts/admin-delete-project/main.go. An optional bucket is `none`
-- where the code has nil. A record that is no JSON text is one that json.Unmarshal refuses.
pub mod Scans
use lfx_v2_project_service.Prelude.{
  ℕ, String, Bool, true, false, Option, none, some, List, [], ◌∷◌, ◌++◌, ◌||◌, ◌==◌, if◌then◌else◌,
  map,
}
use lfx_v2_project_service.Prelude.Text.{sprintf, has_prefix}
use lfx_v2_project_service.Exec.{Result, ok, err, bind}
use lfx_v2_project_service.Domain.Error.{Error, kv}
use lfx_v2_project_service.Domain.Model.{
  ProjectBase, ProjectSettings, ProjectFolder, ProjectLink, ProjectDocument,
}
use lfx_v2_project_service.Nats.Kv.{
  Value, json, plain, Entry, Reply, done, failed, KeyValue, ObjectStore, from_reply,
}
use lfx_v2_project_service.Nats.Repository.{World}
use lfx_v2_project_service.Nats.Laws.{is_listed}
use lfx_v2_project_service.Nats.Links.{link_prefix, link_key}
use lfx_v2_project_service.Nats.Projects.{slug_key}

pub record KvBuckets (B : Type 0 → Type 0) : Type 0 where
  pub projects : KeyValue (B ProjectBase) ProjectBase
  pub project_settings : KeyValue (B ProjectSettings) ProjectSettings
  pub links : Option (KeyValue (B ProjectLink) ProjectLink)
  pub folders : Option (KeyValue (B ProjectFolder) ProjectFolder)
  pub documents : Option (KeyValue (B ProjectDocument) ProjectDocument)
  pub document_files : Option (ObjectStore (B (List ℕ)))

-- The entry that was read, if there was one.
pub record AuditedKvEntry (A : Type 0) : Type 0 where
  pub key : String
  pub entry : Option (Entry A)

pub record ChildAuditResult : Type 0 where
  pub found : Bool
  pub link_lookup_keys : List String
  pub folder_uids : List String
  pub document_uids : List String
  pub links : List ProjectLink
  pub folders : List ProjectFolder
  pub documents : List ProjectDocument

pub record ProjectAudit : Type 0 where
  pub uid : String
  pub base : AuditedKvEntry ProjectBase
  pub slug : String
  pub slug_kv : AuditedKvEntry ProjectBase
  pub settings : AuditedKvEntry ProjectSettings
  pub children : ChildAuditResult
  pub malformed : Bool

abbrev pub no_children : ChildAuditResult
no_children = record {
  found = false;
  link_lookup_keys = [];
  folder_uids = [];
  document_uids = [];
  links = [];
  folders = [];
  documents = [];
}

-- A read in which a missing key is no error.
unfoldable pub optional_entry : {A : Type 0} → Reply (Entry A) → Result (Option (Entry A))
optional_entry (done e) = ok (some e)
optional_entry (failed c) = if c.key_not_found then ok none else err (kv c)

-- The slug, and whether the record could not be parsed.
unfoldable pub extract_slug_from_base : Option (Entry ProjectBase) → String × Bool
extract_slug_from_base none = ("", false)
extract_slug_from_base (some e) = elim e.value [
  | json base ↦ (base.slug, false)
  | plain s ↦ ("", true)
]

-- The loop that scanLinks, scanFolders and scanDocuments share: the records of the project.
module _ {S A : Type 0} (bucket : KeyValue S A) (project_uid_of : A → String) (uid : String) where
  unfoldable pub own_record : Value A → List A → List A
  own_record (plain s) rest = rest
  own_record (json a) rest = if project_uid_of a == uid then a ∷ rest else rest

  unfoldable pub scanned : Reply (Entry A) → Result (List A) → Result (List A)
  unfolding own_record
  scanned (failed c) rest = if c.key_not_found then rest else err (kv c)
  scanned (done e) rest = bind rest λ found. ok (own_record e.value found)

  unfoldable pub scan_keys : List String → S → Result (List A)
  unfolding scanned
  scan_keys [] b = ok []
  scan_keys (key ∷ keys) b =
      let rest = scan_keys keys b in
      if has_prefix key "lookup/" then rest else scanned (bucket.get b key) rest

  unfoldable pub scan_bucket : S → Result (List A)
  unfolding scan_keys
  scan_bucket b = bind (from_reply (bucket.list_keys b)) λ keys. scan_keys keys b

-- The lookup keys of the project's links that are in the bucket.
unfoldable pub lookup_keys_of : String → List String → List String
lookup_keys_of prefix [] = []
lookup_keys_of prefix (key ∷ keys) =
    let rest = lookup_keys_of prefix keys in
    if has_prefix key "lookup/" then (if has_prefix key prefix then key ∷ rest else rest) else rest

-- `if !slices.Contains(res.LinkLookupKeys, key) { … }` for every link
unfoldable pub add_lookup_keys : List String → List ProjectLink → List String
add_lookup_keys keys [] = keys
add_lookup_keys keys (link ∷ links) =
    let key = link_key link.project_uid link.uid in
    add_lookup_keys (if is_listed key keys then keys else keys ++ key ∷ []) links

abbrev is_nonempty : {A : Type 0} → List A → Bool
is_nonempty [] = false
is_nonempty (a ∷ as') = true

module _ {B : Type 0 → Type 0} (buckets : KvBuckets B) where
  unfoldable pub scan_links : String → World B → Result (List ProjectLink × List String)
  unfolding scan_bucket lookup_keys_of
  scan_links uid w = elim buckets.links [
    | none ↦ ok ([], [])
    | some links ↦ bind (from_reply (links.list_keys w.links)) λ keys.
        bind (scan_keys links ProjectLink.project_uid uid keys w.links)
          λ found. ok (found, lookup_keys_of (link_prefix uid) keys)
  ]

  unfoldable pub scan_folders : String → World B → Result (List ProjectFolder)
  unfolding scan_bucket
  scan_folders uid w = elim buckets.folders [
    | none ↦ ok []
    | some folders ↦ scan_bucket folders ProjectFolder.project_uid uid w.folders
  ]

  unfoldable pub scan_documents : String → World B → Result (List ProjectDocument)
  unfolding scan_bucket
  scan_documents uid w = elim buckets.documents [
    | none ↦ ok []
    | some documents ↦ scan_bucket documents ProjectDocument.project_uid uid w.documents
  ]

  unfoldable pub audit_children : String → World B → Result ChildAuditResult
  unfolding scan_links scan_folders scan_documents add_lookup_keys
  audit_children uid w = bind (scan_links uid w) λ (links, lookup_keys).
      bind (scan_folders uid w) λ folders. bind (scan_documents uid w) λ documents.
        let keys = add_lookup_keys lookup_keys links in
        ok (record {
          found =
              is_nonempty links || is_nonempty folders || is_nonempty documents || is_nonempty keys;
          link_lookup_keys = keys;
          folder_uids = map ProjectFolder.uid folders;
          document_uids = map ProjectDocument.uid documents;
          links = links;
          folders = folders;
          documents = documents;
        })

  unfoldable pub audit_slug : String → World B → Result (AuditedKvEntry ProjectBase)
  unfolding optional_entry
  audit_slug slug w =
      let read_slug =
        bind (optional_entry (buckets.projects.get w.projects (slug_key slug)))
          (λ e. ok (record { key = slug_key slug; entry = e })) in
      if slug == "" then ok (record { key = ""; entry = none }) else read_slug

  unfoldable pub audit_project : String → (skip_child_scan : Bool) → World B → Result ProjectAudit
  unfolding optional_entry extract_slug_from_base audit_slug audit_children
  audit_project uid skip_child_scan w =
      bind (optional_entry (buckets.projects.get w.projects uid)) λ base.
        let (slug, malformed) = extract_slug_from_base base in
        bind (audit_slug slug w) λ slug_kv.
          bind (optional_entry (buckets.project_settings.get w.project_settings uid)) λ settings.
            bind (if skip_child_scan then ok no_children else audit_children uid w) λ children.
              ok (record {
                uid = uid;
                base = record { key = uid; entry = base };
                slug = slug;
                slug_kv = slug_kv;
                settings = record { key = uid; entry = settings };
                children = children;
                malformed = malformed;
              })
