-- ===== src/Service/Documents/Validation.antt =====
-- On the validation of UploadDocument (internal/service/document_operations.go).
use lfx_v2_project_service.Prelude.{
  ℕ, ◌<◌, ◌≤◌, String, ◌≡◌, ◌≢◌, ◌⊎◌, true, List, arith, eq_iff, length,
}
use lfx_v2_project_service.Exec.{ok}
use lfx_v2_project_service.Service.Runtime.{Runtime}
use lfx_v2_project_service.Service.Documents.{
  is_allowed, max_document_file_size, effective_content_type, validate_upload,
}

-- An upload with its stored content type.
pub record IsAccepted (rt : Runtime) (name file_name content_type : String) (file_data : List ℕ)
    (stored : String) : Type 0 where
  pub named : name ≢ ""
  pub file_named : file_name ≢ ""
  pub not_empty : 0 < length file_data
  pub fits : length file_data ≤ max_document_file_size
  pub declared : is_allowed content_type ≡ true
  pub allowed : is_allowed stored ≡ true
  pub sniffed :
      (stored ≡ rt.sniff file_data)
      ⊎ ((rt.sniff file_data ≡ "application/octet-stream") × (stored ≡ content_type))

-- An upload that passes the validation has a name and a file name, a file of 1 byte to 10 MiB, an
-- allowed declared type, and is stored with an allowed type: the sniffed one, or the declared one
-- when sniffing answers "application/octet-stream".
pub validate_upload-IsAccepted :
    (rt : Runtime) (name file_name content_type : String) (file_data : List ℕ) (stored : String)
    → validate_upload rt name file_name content_type file_data ≡ ok stored
    → IsAccepted rt name file_name content_type file_data stored
unfolding validate_upload effective_content_type
validate_upload-IsAccepted rt name file_name content_type file_data stored h = record {
  named = ground (arith, eq_iff name "");
  file_named = ground (arith, eq_iff file_name "");
  not_empty = ground arith;
  fits = ground arith;
  declared = ground arith;
  allowed = ground arith;
  sniffed = ground (arith, eq_iff (rt.sniff file_data) "application/octet-stream");
}
