-- ===== src/Service/Handlers.antt =====
-- internal/service/project_handlers.go: replies to the NATS requests of other services, with FieldByTag
-- of pkg/struct/lookup.go.
use lfx_v2_project_service.Prelude.{
  String, Bool, Option, none, some, List, [], ◌∷◌, ◌==◌, if◌then◌else◌,
}
use lfx_v2_project_service.Exec.{
  Result, ok, err, Exec, pure, raise, read, guard, try, from_option, ◌>>=◌, ◌>>◌,
}
use lfx_v2_project_service.Domain.Error.{other}
use lfx_v2_project_service.Domain.Model.{Time, UserInfo, ProjectBase}
use lfx_v2_project_service.Service.Core.{ProjectsService, Ready, service_ready}
use lfx_v2_project_service.Service.Runtime.{Runtime}

-- The subjects of pkg/constants/nats.go.
abbrev pub get_name_subject : String
get_name_subject = "lfx.projects-api.get_name"

abbrev pub get_slug_subject : String
get_slug_subject = "lfx.projects-api.get_slug"

abbrev pub get_logo_subject : String
get_logo_subject = "lfx.projects-api.get_logo"

abbrev pub slug_to_uid_subject : String
slug_to_uid_subject = "lfx.projects-api.slug_to_uid"

abbrev pub get_parent_uid_subject : String
get_parent_uid_subject = "lfx.projects-api.get_parent_uid"

abbrev pub get_writers_subject : String
get_writers_subject = "lfx.projects-api.get_writers"

-- domain.Message; a reply is bytes, or nil.
pub record Request (W : Type 0) : Type 0 where
  pub subject : String
  pub content : String
  pub respond : Option String → Exec W (Unit {0})

-- A value that reflection finds in a field of ProjectBase.
pub data FieldValue : Type 0 where
  text : String → FieldValue
  flag : Bool → FieldValue
  texts : List String → FieldValue
  instant : Option Time → FieldValue

-- The fields of the struct with their `json` tags, in order.
unfoldable pub project_fields : ProjectBase → List (String × FieldValue)
project_fields p =
    ("uid", text p.uid)
    ∷ ("slug", text p.slug)
    ∷ ("name", text p.name)
    ∷ ("description", text p.description)
    ∷ ("public", flag p.public)
    ∷ ("is_foundation", flag p.is_foundation)
    ∷ ("parent_uid", text p.parent_uid)
    ∷ ("stage", text p.stage)
    ∷ ("category", text p.category)
    ∷ ("legal_entity_type", text p.legal_entity_type)
    ∷ ("legal_entity_name", text p.legal_entity_name)
    ∷ ("legal_parent_uid", text p.legal_parent_uid)
    ∷ ("funding", text p.funding)
    ∷ ("funding_model", texts p.funding_model)
    ∷ ("entity_dissolution_date", instant p.entity_dissolution_date)
    ∷ ("entity_formation_document_url", text p.entity_formation_document_url)
    ∷ ("formation_date", instant p.formation_date)
    ∷ ("autojoin_enabled", flag p.autojoin_enabled)
    ∷ ("charter_url", text p.charter_url)
    ∷ ("logo_url", text p.logo_url)
    ∷ ("website_url", text p.website_url)
    ∷ ("repository_url", text p.repository_url)
    ∷ ("created_at", instant p.created_at)
    ∷ ("updated_at", instant p.updated_at)
    ∷ []

-- FieldByTag: the first field with the tag.
unfoldable pub field_by_tag : List (String × FieldValue) → String → Option FieldValue
field_by_tag [] tag = none
field_by_tag ((t, v) ∷ fields) tag =
    let rest = field_by_tag fields tag in if t == tag then some v else rest

-- `value.(string)`
abbrev as_text : Option FieldValue → Option String
as_text (some (text s)) = some s
as_text _ = none

-- `json_writers` is json.Marshal on a slice of users.
module _ (rt : Runtime) (json_writers : List UserInfo → Option String) {W : Type 0}
    (s : ProjectsService W) where
  -- `if !s.ServiceReady() { return nil, fmt.Errorf(…) }`
  when_initialized : (Ready W → Exec W String) → Exec W String
  when_initialized body = elim (service_ready s) [ none ↦ raise other | some r ↦ body r ]

  unfoldable pub handle_project_get_attribute : (attribute : String) → String → Exec W String
  unfolding when_initialized field_by_tag project_fields
  handle_project_get_attribute attribute project_uid = when_initialized λ r. do
    guard (rt.is_uuid project_uid) other
    project ← read (r.projects.get_project_base project_uid)
    from_option other (as_text (field_by_tag (project_fields project) attribute))

  unfoldable pub handle_project_get_name : String → Exec W String
  unfolding handle_project_get_attribute
  handle_project_get_name = handle_project_get_attribute "name"

  unfoldable pub handle_project_get_slug : String → Exec W String
  unfolding handle_project_get_attribute
  handle_project_get_slug = handle_project_get_attribute "slug"

  unfoldable pub handle_project_get_logo : String → Exec W String
  unfolding handle_project_get_attribute
  handle_project_get_logo = handle_project_get_attribute "logo_url"

  unfoldable pub handle_project_get_parent_uid : String → Exec W String
  unfolding handle_project_get_attribute
  handle_project_get_parent_uid = handle_project_get_attribute "parent_uid"

  unfoldable pub handle_project_slug_to_uid : String → Exec W String
  unfolding when_initialized
  handle_project_slug_to_uid project_slug =
      when_initialized λ r. read (r.projects.get_project_uid_from_slug project_slug)

  unfoldable pub handle_project_get_writers : String → Exec W String
  unfolding when_initialized
  handle_project_get_writers project_uid = when_initialized λ r. do
    guard (rt.is_uuid project_uid) other
    found ← read (r.projects.get_project_settings project_uid)
    from_option other (json_writers found.writers)

  -- The map `handlers`.
  unfoldable pub handler : (subject : String) → Option (String → Exec W String)
  handler subject =
      if subject == get_name_subject
      then some handle_project_get_name
      else if subject == get_slug_subject
      then some handle_project_get_slug
      else if subject == get_logo_subject
      then some handle_project_get_logo
      else if subject == slug_to_uid_subject
      then some handle_project_slug_to_uid
      else if subject == get_parent_uid_subject
      then some handle_project_get_parent_uid
      else if subject == get_writers_subject
      then some handle_project_get_writers
      else none

  abbrev answer : Result String → Option String
  answer (ok response) = some response
  answer (err e) = none

  -- An error of the response is only logged.
  unfoldable pub handle_message : Request W → Exec W (Unit {0})
  unfolding handler
  handle_message msg = elim (handler msg.subject) [
    | none ↦ do try (msg.respond none); pure tt
    | some handle ↦ do
      response ← try (handle msg.content)
      try (msg.respond (answer response))
      pure tt
  ]
