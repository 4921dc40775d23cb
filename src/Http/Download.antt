-- ===== src/Http/Download.antt =====
-- The body of a download: documentDownloadBody of cmd/project-api/service_endpoint_document.go.
pub mod Reading
use lfx_v2_project_service.Prelude.{
  ℕ, zero, suc, ◌+◌, String, Bool, true, false, ◌||◌, Option, none, some, List, [], ◌∷◌, ◌==◌,
  if◌then◌else◌, length, leb, ltb, nat_eq,
}
use lfx_v2_project_service.Prelude.Text.{sprintf}
use lfx_v2_project_service.Http.Fallback.{ascii_fallback}

pub record DocumentDownloadBody : Type 0 where
  pub content : List ℕ
  pub content_type : String
  pub file_name : String
  pub offset : ℕ

-- `data[offset:]`; both are total, as Go's slicing is within the length.
unfoldable pub drop : ℕ → List ℕ → List ℕ
drop zero xs = xs
drop (suc n) [] = []
drop (suc n) (x ∷ xs) = drop n xs

unfoldable pub take : ℕ → List ℕ → List ℕ
take zero xs = []
take (suc n) [] = []
take (suc n) (x ∷ xs) = x ∷ take n xs

-- Read into a buffer of `capacity` bytes: the bytes that were copied and the next body; `none` is io.EOF.
unfoldable pub read : (capacity : ℕ) → DocumentDownloadBody → Option (List ℕ) × DocumentDownloadBody
unfolding drop take
read capacity b =
    if leb (length b.content) b.offset
    then (none, b)
    else let chunk = take capacity (drop b.offset b.content) in
      (some chunk, record b { offset = b.offset + length chunk })

-- The headers that WriteTo sets on a response, with url.PathEscape.
unfoldable pub download_headers :
    (path_escape : String → String) → DocumentDownloadBody → List (String × String)
unfolding ascii_fallback
download_headers path_escape b =
    let disposition = sprintf "attachment; filename=\"" (
      sprintf (ascii_fallback b.file_name)
        (sprintf "\"; filename*=UTF-8''" (path_escape b.file_name))) in
    let named = if b.file_name == "" then [] else ("Content-Disposition", disposition) ∷ [] in
    if b.content_type == "" then named else ("Content-Type", b.content_type) ∷ named
