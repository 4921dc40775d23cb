-- ===== src/Examples/Requests.antt =====
-- The theorems about the service's operations, at the wired service over buckets in memory.
use lfx_v2_project_service.Prelude.{
  String, ◌≡◌, ◌≢◌, refl, ◌⊎◌, inl, true, false, none, some, [], ◌∷◌, map, arith, Member,
}
use lfx_v2_project_service.Prelude.Text.{
  trim_space, has_prefix, trim_prefix, format_uint, parse_uint, parse_uint-format_uint,
}
use lfx_v2_project_service.Prelude.Assoc.{insert, lookup}
use lfx_v2_project_service.Exec.{ok, err}
use lfx_v2_project_service.Domain.Error.{
  Error, KvError, internal, validation_failed, cannot_delete_non_crowdfunding_project,
}
use lfx_v2_project_service.Domain.Model.{UserInfo}
use lfx_v2_project_service.Nats.Memory.{Memory, peek, memory, memory-laws}
use lfx_v2_project_service.Nats.Repository.{NatsRepository}
use lfx_v2_project_service.Nats.Kv.{failed}
use lfx_v2_project_service.Nats.Projects.{get_project_base, get_project_base_with_revision}
use lfx_v2_project_service.Nats.Links.{list_links}
use lfx_v2_project_service.Nats.Documents.{
  list_documents, put_document_file, delete_unique_document_name,
}
use lfx_v2_project_service.Service.Api.{ApiUser}
use lfx_v2_project_service.Service.Core.{service_ready, if_match_revision}
use lfx_v2_project_service.Service.Wiring.{wired, wired_parts, wired-ready}
use lfx_v2_project_service.Service.Users.{user_from_api, normalize_email}
use lfx_v2_project_service.Service.Converters.{
  convert_to_service_project_base, convert_to_db_project_base,
}
use lfx_v2_project_service.Service.Users.Roles.{user_from_api-invite}
use lfx_v2_project_service.Service.Converters.RoundTrip.{convert_to_db-convert_to_service}
use lfx_v2_project_service.Service.Enrich.{enrich_all_role_fields}
use lfx_v2_project_service.Service.Enrich.Lookups.{enrich_directly, enrich_all-directly}
use lfx_v2_project_service.Service.Projects.Get.{get_one_project_base}
use lfx_v2_project_service.Service.Projects.Delete.{delete_project}
use lfx_v2_project_service.Service.Projects.Rejections.{delete_project-funding, etag_round_trip}
use lfx_v2_project_service.Service.Folders.{delete_folder}
use lfx_v2_project_service.Service.Folders.Deletion.{delete_folder-not_empty}
use lfx_v2_project_service.Service.Documents.{
  store_document, validate_upload, is_allowed, effective_content_type,
}
use lfx_v2_project_service.Service.Documents.Validation.{IsAccepted, validate_upload-IsAccepted}
use lfx_v2_project_service.Service.Documents.Rollback.{store_document-rollback}
use lfx_v2_project_service.Examples.Payloads.{deletion, claimed}
use lfx_v2_project_service.Examples.Sample.{
  repository, digest, messages, users, service, parts, runtime, world, mixed_world, zephyr, mixed,
  ann, bob, charter_link, report,
}

ready : service_ready service ≡ some parts
ready = wired-ready digest repository messages users false

parse_uint-format_uint_example : parse_uint (format_uint 1207) ≡ some 1207
parse_uint-format_uint_example = parse_uint-format_uint 1207 (omega arith)

not_crowdfunding_only : mixed.funding_model ≢ "Crowdfunding" ∷ []
not_crowdfunding_only e = cc

delete_project-funding_example :
    (delete_project runtime service deletion mixed_world
      ≡ (err cannot_delete_non_crowdfunding_project, mixed_world))
    ⊎ (delete_project runtime service deletion mixed_world ≡ (err validation_failed, mixed_world))
delete_project-funding_example =
    delete_project-funding runtime service parts ready mixed_world deletion "u1" mixed 2 refl
      (unfold memory get_project_base in refl)
      (unfold memory get_project_base_with_revision in refl) not_crowdfunding_only

etag_round_trip_example :
    (etag : String) × (get_one_project_base runtime service (some "u1") world
      ≡ (ok (convert_to_service_project_base runtime zephyr, etag), world))
    × (if_match_revision (some etag) world ≡ (ok 2, world))
etag_round_trip_example =
    etag_round_trip runtime service parts ready world "u1" zephyr 2
      (unfold memory get_project_base_with_revision in refl) (omega arith)

delete_folder-not_empty_example :
    (e : Error) × (delete_folder runtime service "u1" "f1" (some "2") true world ≡ (err e, world))
delete_folder-not_empty_example =
    delete_folder-not_empty runtime service parts ready world "u1" "f1" (some "2") true
      (charter_link ∷ []) (report ∷ []) (unfold memory list_links has_prefix trim_prefix in refl)
      (unfold memory list_documents has_prefix trim_prefix in refl)
      (inl (charter_link, inl refl, refl))

validate_upload-IsAccepted_example :
    IsAccepted runtime "Report" "r.pdf" "application/pdf" (37 ∷ 80 ∷ []) "application/pdf"
validate_upload-IsAccepted_example =
    validate_upload-IsAccepted runtime "Report" "r.pdf" "application/pdf" (37 ∷ 80 ∷ [])
      "application/pdf" (unfold validate_upload is_allowed effective_content_type runtime in refl)

convert_to_db-convert_to_service_example :
    convert_to_db_project_base runtime (convert_to_service_project_base runtime zephyr) ≡ ok zephyr
convert_to_db-convert_to_service_example =
    convert_to_db-convert_to_service runtime zephyr 3 3 refl refl
      (unfold runtime format_uint parse_uint in refl)
      (unfold runtime format_uint parse_uint in refl) tt tt

abbrev invited : ApiUser
invited = record {
  name = none;
  email = some "ann@x.org ";
  username = none;
  avatar = none;
  invite = none;
}

user_from_api-invite_example :
    (email : String) × (u : UserInfo) × (invited.email ≡ some email)
    × Member u (bob ∷ ann ∷ [])
    × (normalize_email runtime u.email ≡ normalize_email runtime email)
    × (u.invite ≡ some (record { uid = "i1"; email = "ann@x.org"; expires_at = none }))
user_from_api-invite_example =
    user_from_api-invite runtime (bob ∷ ann ∷ []) invited
      (record { uid = "i1"; email = "ann@x.org"; expires_at = none })
      (unfold user_from_api normalize_email runtime trim_space in refl)

-- The claimed username "root" is replaced by the one of the auth service.
abbrev enriched : ApiUser
enriched = record {
  name = some "Bob B.";
  email = some " bob@x.org";
  username = some "bob";
  avatar = some "b.png";
  invite = none;
}

enrich_all-directly_example :
    ((some enriched ∷ []) ∷ []
      ≡ map (map (enrich_directly runtime users world)) ((some claimed ∷ []) ∷ []))
    × (none ∷ [] ≡ map (enrich_directly runtime users world) (none ∷ []))
enrich_all-directly_example =
    enrich_all-directly runtime users world ((some claimed ∷ []) ∷ []) (none ∷ [])
      ((some enriched ∷ []) ∷ [], none ∷ [])
      (unfold enrich_all_role_fields runtime trim_space insert lookup in refl)

abbrev out_of_space : KvError
out_of_space = record { key_not_found = false; key_exists = false; wrong_last_sequence = false }

-- An object store that is out of space.
abbrev full_repository : NatsRepository Memory
full_repository = record repository {
  document_files = record {
    get = λ b k. failed out_of_space;
    put = λ k bytes b. (failed out_of_space, b);
    delete = λ k b. (failed out_of_space, b);
  };
}

store_document-rollback_example :
    peek
      (store_document runtime
        (wired digest full_repository messages users false)
        (wired_parts digest full_repository messages users false)
        report
        (37 ∷ 80 ∷ [])
        "lookup/project-documents/u1|Report"
        world).1.documents
      "lookup/project-documents/u1|Report"
    ≡ none
store_document-rollback_example =
    store_document-rollback digest full_repository messages users false peek memory-laws runtime
      report (37 ∷ 80 ∷ []) "lookup/project-documents/u1|Report" world internal
      (unfold memory in λ b. refl)
      (unfold store_document put_document_file delete_unique_document_name memory in refl)
