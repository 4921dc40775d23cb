-- ===== src/Http/Errors.antt =====
-- handleError and createResponse of cmd/project-api: the errors of the service as the errors of the API.
use lfx_v2_project_service.Prelude.{ℕ, String, Option, none, some, nat_eq, if◌then◌else◌}
use lfx_v2_project_service.Prelude.Text.{format_uint}
use lfx_v2_project_service.Exec.{Result, ok, err, Exec}
use lfx_v2_project_service.Domain.Error.{
  Error, project_not_found, invalid_parent_project, project_slug_exists, internal,
  revision_mismatch, unmarshal, service_unavailable, validation_failed,
  cannot_delete_non_crowdfunding_project, archived_requires_dissolution_date, document_not_found,
  document_name_exists, invalid_content_type, file_too_large, link_not_found, folder_not_found,
  folder_name_exists, folder_not_empty,
}

-- The errors of the generated API, each with its code and its message; `other_error` is an error that is
-- passed on as it is.
pub data ApiError : Type 0 where
  bad_request_error not_found_error conflict_error : (code message : String) → ApiError
  internal_server_error service_unavailable_error : (code message : String) → ApiError
  other_error : Error → ApiError

-- The second argument is err.Error().
unfoldable pub create_response : ℕ → String → Option ApiError
create_response code message =
    if nat_eq code 400
    then some (bad_request_error (format_uint code) message)
    else if nat_eq code 404
    then some (not_found_error (format_uint code) message)
    else if nat_eq code 409
    then some (conflict_error (format_uint code) message)
    else if nat_eq code 500
    then some (internal_server_error (format_uint code) message)
    else if nat_eq code 503
    then some (service_unavailable_error (format_uint code) message)
    else none

-- The switch compares with `==`, and passes on an error that it does not name.
unfoldable pub handle_error : Error → Option ApiError
unfolding create_response
handle_error service_unavailable = create_response 503 "service unavailable"
handle_error validation_failed = create_response 400 "validation failed"
handle_error revision_mismatch = create_response 409 "revision mismatch"
handle_error invalid_parent_project = create_response 400 "invalid parent project"
handle_error cannot_delete_non_crowdfunding_project =
    create_response 400 "project can only be deleted if its funding model is Crowdfunding only"
handle_error archived_requires_dissolution_date =
    create_response 400 "entity dissolution date is required when project stage is 'Archived'"
handle_error invalid_content_type = create_response 400 "content type is not allowed"
handle_error file_too_large = create_response 400 "file size exceeds maximum allowed size"
handle_error project_not_found = create_response 404 "project not found"
handle_error document_not_found = create_response 404 "document not found"
handle_error link_not_found = create_response 404 "link not found"
handle_error folder_not_found = create_response 404 "folder not found"
handle_error project_slug_exists = create_response 409 "project slug already exists"
handle_error document_name_exists =
    create_response 409 "document with the same name already exists for this project"
handle_error folder_name_exists =
    create_response 409 "folder with the same name already exists for this project"
handle_error folder_not_empty =
    create_response 409
      "folder cannot be deleted because it contains links or documents; remove all items from the folder first"
handle_error internal = create_response 500 "internal error"
handle_error unmarshal = create_response 500 "internal error"
handle_error e = some (other_error e)

-- What an endpoint answers. `nothing` is a nil result with a nil error.
pub data Reply (A : Type 0) : Type 0 where
  success : A → Reply A
  failure : ApiError → Reply A
  nothing : Reply A

abbrev pub failed : {A : Type 0} → Option ApiError → Reply A
failed none = nothing
failed (some e) = failure e

-- `if err != nil { return nil, handleError(err) }; return result, nil`
unfoldable pub reply : {A C : Type 0} → (A → C) → Result A → Reply C
unfolding handle_error
reply f (ok a) = success (f a)
reply f (err e) = failed (handle_error e)

abbrev pub endpoint : {W A C : Type 0} → (A → C) → Exec W A → W → Reply C × W
endpoint f m w = let (r, w') = m w in (reply f r, w')
