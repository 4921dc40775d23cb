-- ===== src/Service/Projects/Validate.antt =====
-- The checks and the translation of errors that the operations on projects share.
use lfx_v2_project_service.Prelude.{
  String, Bool, true, false, ◌&&◌, Option, none, some, List, [], ◌∷◌, ◌==◌, if◌then◌else◌,
}
use lfx_v2_project_service.Exec.{Result, ok, err, Exec, pure, read, guard, change_err, ◌>>=◌, ◌>>◌}
use lfx_v2_project_service.Domain.Error.{
  Error, project_not_found, invalid_parent_project, internal, revision_mismatch, validation_failed,
  archived_requires_dissolution_date, is_project_not_found, is_revision_mismatch,
}
use lfx_v2_project_service.Service.Runtime.{Runtime}
use lfx_v2_project_service.Service.Core.{Ready}
use lfx_v2_project_service.Prelude.Text.{trim_space}

-- pkg/constants/nats.go
abbrev pub project_subject : String
project_subject = "lfx.index.project"

abbrev pub settings_subject : String
settings_subject = "lfx.index.project_settings"

unfoldable pub is_crowdfunding_only : List String → Bool
is_crowdfunding_only (model ∷ []) = model == "Crowdfunding"
is_crowdfunding_only _ = false

abbrev is_missing : Option String → Bool
is_missing none = true
is_missing (some date) = trim_space date == ""

unfoldable pub validate_archived_requires_dissolution_date :
    Option String → Option String → Result (Unit {0})
validate_archived_requires_dissolution_date none dissolution_date = ok tt
validate_archived_requires_dissolution_date (some stage) dissolution_date =
    if stage == "Archived" && is_missing dissolution_date
    then err archived_requires_dissolution_date
    else ok tt

-- Every error becomes ErrInternal.
abbrev pub to_internal : Error → Error
to_internal e = internal

-- ErrProjectNotFound is kept, every other error becomes ErrInternal.
abbrev pub not_found_or_internal : Error → Error
not_found_or_internal e = if is_project_not_found e then project_not_found else internal

abbrev pub update_error : Error → Error
update_error e = if is_revision_mismatch e then revision_mismatch else internal

abbrev pub delete_error : Error → Error
delete_error e =
    if is_revision_mismatch e
    then revision_mismatch
    else if is_project_not_found e
    then project_not_found
    else internal

-- The parent UID, if there is one, is a UUID and names a project.
unfoldable pub check_parent : {W : Type 0} → Runtime → Ready W → String → Exec W (Unit {0})
check_parent rt r parent_uid = if parent_uid == "" then pure tt else do
  guard (rt.is_uuid parent_uid) validation_failed
  found ← change_err to_internal (read (r.projects.project_exists parent_uid))
  guard found invalid_parent_project
