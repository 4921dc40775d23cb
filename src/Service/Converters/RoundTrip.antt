-- ===== src/Service/Converters/RoundTrip.antt =====
-- On the conversions of internal/service/converters.go between the store and the API.
use lfx_v2_project_service.Prelude.{String, ◌≡◌, Option, none, some, arith, eq_iff}
use lfx_v2_project_service.Exec.{ok}
use lfx_v2_project_service.Domain.Model.{Time, ProjectBase}
use lfx_v2_project_service.Service.Runtime.{Runtime}
use lfx_v2_project_service.Service.Pointers.{non_empty, deref}
use lfx_v2_project_service.Service.Converters.{
  convert_to_service_project_base, convert_to_db_project_base,
}

-- What is printed in a layout reads back.
abbrev ReadsBack : (Time → String) → (String → Option Time) → Option Time → Type 0
ReadsBack format parse none = Unit
ReadsBack format parse (some t) = parse (format t) ≡ some t

deref-non_empty : (s : String) → deref (non_empty s) ≡ s
deref-non_empty s = ground (arith, eq_iff s "")

-- A project with both timestamps, whose timestamps and dates read back as they are printed, is
-- the same project after it has been converted for the API and back.
pub convert_to_db-convert_to_service :
    (rt : Runtime) (p : ProjectBase) (created updated : Time)
    → p.created_at ≡ some created
    → p.updated_at ≡ some updated
    → ReadsBack rt.format_rfc3339 rt.parse_rfc3339 p.created_at
    → ReadsBack rt.format_rfc3339 rt.parse_rfc3339 p.updated_at
    → ReadsBack rt.format_date_only rt.parse_date_only p.entity_dissolution_date
    → ReadsBack rt.format_date_only rt.parse_date_only p.formation_date
    → convert_to_db_project_base rt (convert_to_service_project_base rt p) ≡ ok p
unfolding convert_to_db_project_base convert_to_service_project_base
convert_to_db-convert_to_service rt p created updated hc hu c u d f =
    let texts = deref-non_empty in
    ground (
      arith,
      texts p.name,
      texts p.description,
      texts p.parent_uid,
      texts p.stage,
      texts p.category,
      texts p.legal_entity_type,
      texts p.legal_entity_name,
      texts p.legal_parent_uid,
      texts p.funding,
      texts p.entity_formation_document_url,
      texts p.charter_url,
      texts p.logo_url,
      texts p.website_url,
      texts p.repository_url,
    )
