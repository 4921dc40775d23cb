-- ===== src/Examples/Forms.antt =====
-- A concrete upload form, and a token that is refused.
use lfx_v2_project_service.Prelude.{◌≤◌, ◌<◌, ◌≡◌, refl, false, none, some, [], ◌∷◌, length}
use lfx_v2_project_service.Service.Documents.{max_document_file_size}
use lfx_v2_project_service.Http.Payloads.{UploadProjectDocumentPayload}
use lfx_v2_project_service.Http.Authentication.{Validation, invalid, redact}
use lfx_v2_project_service.Http.Multipart.{Part, Form, end, next_part, upload_document_decoder}
use lfx_v2_project_service.Http.Multipart.Files.{last_file, upload_document_decoder-file}

abbrev expired : Validation
expired = invalid "expected claims not validated: go-jose/go-jose/jwt: validation failed: exp"

-- An error that ends right after the library's name makes the slice go out of range.
redacted :
    (redact "expected claims not validated: go-jose/go-jose/jwt: validation failed: exp"
      ≡ some "expected claims not validated: validation failed")
    × (redact "no colon" ≡ some "no colon")
    × (redact "bad token: go-jose/go-jose/jwt" ≡ none)
unfolding redact
redacted = (refl, refl, refl)

abbrev pdf_part : Part
pdf_part = record {
  form_name = "file";
  file_name = "report.pdf";
  content_type = "application/pdf";
  content = 37 ∷ 80 ∷ [];
  unreadable = false;
}

abbrev name_part : Part
name_part = record {
  form_name = "name";
  file_name = "";
  content_type = "";
  content = 82 ∷ [];
  unreadable = false;
}

abbrev form : Form
form = next_part name_part (next_part pdf_part end)

abbrev empty_payload : UploadProjectDocumentPayload
empty_payload = record {
  x_sync = none;
  uid = "u1";
  name = "";
  description = none;
  folder_uid = none;
  file = [];
  file_name = "";
  content_type = "";
}

abbrev filled_payload : UploadProjectDocumentPayload
filled_payload = record empty_payload {
  name = "R";
  file = 37 ∷ 80 ∷ [];
  file_name = "report.pdf";
  content_type = "application/pdf";
}

upload_document_decoder-file_example :
    let content = last_file form [] in
    (length content ≤ max_document_file_size → filled_payload.file ≡ content)
    × (max_document_file_size < length content
        → max_document_file_size < length filled_payload.file)
upload_document_decoder-file_example =
    upload_document_decoder-file (λ bytes. "R") (λ s. some s) form empty_payload filled_payload refl
      (unfold upload_document_decoder in refl)
