-- ===== src/Nats/Links.antt =====
-- The methods of NatsRepository on links. The index key of a link is
-- "lookup/project-links/<project UID>/<link UID>" (pkg/constants/nats.go).
use lfx_v2_project_service.Prelude.{
  ℕ, String, Option, none, some, List, [], ◌∷◌, ◌==◌, if◌then◌else◌,
}
use lfx_v2_project_service.Prelude.Text.{sprintf, has_prefix, trim_prefix}
use lfx_v2_project_service.Domain.Error.{
  Error, link_not_found, internal, revision_mismatch, unmarshal,
}
use lfx_v2_project_service.Domain.Model.{ProjectLink}
use lfx_v2_project_service.Exec.{
  Result, ok, err, Exec, map_err, bind, pure, read, change_err, try, is_ok, raise, ◌>>=◌, ◌>>◌,
}
use lfx_v2_project_service.Nats.Kv.{Entry, json, plain, unmarshal_value, from_reply}
use lfx_v2_project_service.Nats.Repository.{
  NatsRepository, World, is_key_not_found, is_wrong_last_sequence, on_links,
}

abbrev pub link_prefix : String → String
link_prefix project_uid = sprintf (sprintf "lookup/project-links/" project_uid) "/"

abbrev pub link_key : String → String → String
link_key project_uid link_uid = sprintf (link_prefix project_uid) link_uid

abbrev not_found_or_internal : Error → Error
not_found_or_internal e = if is_key_not_found e then link_not_found else internal

module _ {B : Type 0 → Type 0} (s : NatsRepository B) where
  get_link_entry : String → World B → Result (Entry ProjectLink)
  get_link_entry link_uid w = from_reply (s.links.get w.links link_uid)

  unfoldable pub get_link : String → String → World B → Result (ProjectLink × ℕ)
  unfolding get_link_entry
  get_link project_uid link_uid w =
      bind (map_err not_found_or_internal (get_link_entry link_uid w)) λ entry.
        bind (map_err (λ _. unmarshal) (unmarshal_value entry.value)) λ link.
          if link.project_uid == project_uid then ok (link, entry.revision) else err link_not_found

  -- one round of ListLinks: `none` is `continue`
  listed_link : Result (Entry ProjectLink) → Result (Option ProjectLink)
  listed_link (ok entry) =
      bind (map_err (λ _. unmarshal) (unmarshal_value entry.value)) λ link. ok (some link)
  listed_link (err e) = if is_key_not_found e then ok none else err internal

  abbrev cons_some : Option ProjectLink → List ProjectLink → List ProjectLink
  cons_some none links = links
  cons_some (some link) links = link ∷ links

  list_link_keys : String → List String → World B → Result (List ProjectLink)
  unfolding get_link_entry listed_link
  list_link_keys prefix [] w = ok []
  list_link_keys prefix (key ∷ keys) w =
      let rest = list_link_keys prefix keys w in
      let one =
        bind (listed_link (get_link_entry (trim_prefix key prefix) w))
          (λ found. bind rest (λ links. ok (cons_some found links))) in
      if has_prefix key prefix then one else rest

  unfoldable pub list_links : String → World B → Result (List ProjectLink)
  unfolding list_link_keys
  list_links project_uid w =
      bind (map_err (λ _. internal) (from_reply (s.links.list_keys w.links)))
        λ keys. list_link_keys (link_prefix project_uid) keys w

  -- The index key; if it cannot be written, the record is purged again.
  index_link : ProjectLink → Exec (World B) (Unit {0})
  index_link link = do
    written ← try (on_links (s.links.put (link_key link.project_uid link.uid) (plain link.uid)))
    if is_ok written then pure tt else do try (on_links (s.links.purge link.uid)); raise internal

  unfoldable pub create_link : ProjectLink → Exec (World B) (Unit {0})
  unfolding index_link
  create_link link = do
    change_err (λ _. internal) (on_links (s.links.put link.uid (json link)))
    index_link link

  unfoldable pub delete_link : String → String → ℕ → Exec (World B) (Unit {0})
  unfolding get_link
  delete_link project_uid link_uid revision = do
    found ← read (get_link project_uid link_uid)
    change_err (λ e. if is_wrong_last_sequence e then revision_mismatch else internal)
        (on_links (s.links.delete link_uid (some revision)))
    try (on_links (s.links.purge (link_key found.0.project_uid found.0.uid)))
    pure tt
