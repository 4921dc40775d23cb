-- ===== src/Http/Multipart.antt =====
-- uploadDocumentDecoder of cmd/project-api/http.go: the multipart form of an upload. The reader of
-- mime/multipart hands out parts until the end of the form or an error; mime.ParseMediaType and the
-- text of some bytes are parameters.
pub mod Files
use lfx_v2_project_service.Prelude.{
  ℕ, ◌+◌, String, Bool, true, false, Option, none, some, List, [], ◌∷◌, ◌==◌, if◌then◌else◌, length,
  ltb,
}
use lfx_v2_project_service.Domain.Error.{other}
use lfx_v2_project_service.Service.Documents.{max_document_file_size}
use lfx_v2_project_service.Http.Errors.{ApiError, other_error, create_response}
use lfx_v2_project_service.Http.Download.{take}
use lfx_v2_project_service.Http.Payloads.{UploadProjectDocumentPayload}

pub record Part : Type 0 where
  pub form_name : String
  pub file_name : String
  pub content_type : String
  pub content : List ℕ
  -- whether reading the content fails
  pub unreadable : Bool

pub data Form : Type 0 where
  end : Form
  broken : Form
  next_part : Part → Form → Form

pub data Decoded : Type 0 where
  decoded : UploadProjectDocumentPayload → Decoded
  refused : ApiError → Decoded

pub data Text : Type 0 where
  text : String → Text
  bad : ApiError → Text

abbrev pub max_text_part_size : ℕ
max_text_part_size = 4096

unfoldable pub validation_error : ApiError
unfolding create_response
validation_error = elim (create_response 400 "validation failed") [
  | none ↦ other_error other
  | some e ↦ e
]

module _ (text_of : List ℕ → String) (parse_media_type : String → Option String) where
  -- io.ReadAll(io.LimitReader(part, maxTextPartSize+1)) with the check of its length
  unfoldable pub read_text : Part → Text
  unfolding take
  read_text p =
      let bytes = take (max_text_part_size + 1) p.content in
      if p.unreadable
      then bad (other_error other)
      else if ltb max_text_part_size (length bytes)
      then bad validation_error
      else text (text_of bytes)

  abbrev pub media_type : String → String
  media_type s = elim (parse_media_type s) [ none ↦ s | some ct ↦ ct ]

  -- `if s := string(data); s != "" { payload.FolderUID = &s }`
  abbrev pub folder_of : String → Option String → Option String
  folder_of s old = if s == "" then old else some s

  unfoldable pub set_field :
      (field s : String) → UploadProjectDocumentPayload → UploadProjectDocumentPayload
  set_field field s p =
      if field == "name"
      then record p { name = s }
      else if field == "description"
      then record p { description = some s }
      else if field == "folder_uid"
      then record p { folder_uid = folder_of s p.folder_uid }
      else if field == "file_name"
      then record p { file_name = s }
      else record p { content_type = media_type s }

  unfoldable pub is_text_field : String → Bool
  is_text_field field =
      if field == "name"
      then true
      else if field == "description"
      then true
      else if field == "folder_uid"
      then true
      else if field == "file_name"
      then true
      else field == "content_type"

  unfoldable pub read_file : Part → UploadProjectDocumentPayload → Decoded
  unfolding take
  read_file part p =
      if part.unreadable
      then refused (other_error other)
      else decoded (record p {
        file_name = if p.file_name == "" then part.file_name else p.file_name;
        content_type =
            if p.content_type == "" then media_type part.content_type else p.content_type;
        file = take (max_document_file_size + 1) part.content;
      })

  unfoldable pub read_text_part : Part → Text → UploadProjectDocumentPayload → Decoded
  unfolding set_field
  read_text_part part (bad e) p = refused e
  read_text_part part (text s) p = decoded (set_field part.form_name s p)

  -- One round of the loop, a switch on the name; a part of another name is passed over.
  unfoldable pub read_part : Part → UploadProjectDocumentPayload → Decoded
  unfolding read_text read_text_part is_text_field read_file
  read_part part p =
      if part.form_name == "file"
      then read_file part p
      else if is_text_field part.form_name
      then read_text_part part (read_text part) p
      else decoded p

  unfoldable pub continue : (UploadProjectDocumentPayload → Decoded) → Decoded → Decoded
  continue next (decoded p) = next p
  continue next (refused e) = refused e

  unfoldable pub upload_document_decoder : Form → UploadProjectDocumentPayload → Decoded
  unfolding read_part continue
  upload_document_decoder end p = decoded p
  upload_document_decoder broken p = refused (other_error other)
  upload_document_decoder (next_part x form) p =
      continue (upload_document_decoder form) (read_part x p)
