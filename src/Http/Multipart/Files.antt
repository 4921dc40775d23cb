-- ===== src/Http/Multipart/Files.antt =====
-- On the file of an upload form, of cmd/project-api/http.go.
use lfx_v2_project_service.Prelude.{
  ℕ, zero, suc, ◌+◌, ◌≤◌, ◌<◌, String, ◌≡◌, refl, sym, ap, ◌∙◌, inl, inr, Option, List, [], ◌∷◌,
  ◌==◌, if◌then◌else◌, length, arith, Bool-cases,
}
use lfx_v2_project_service.Service.Documents.{max_document_file_size}
use lfx_v2_project_service.Http.Download.{take}
use lfx_v2_project_service.Http.Payloads.{UploadProjectDocumentPayload}
use lfx_v2_project_service.Http.Multipart.{
  Part, Form, end, broken, next_part, Decoded, decoded, refused, Text, text, bad, read_text,
  set_field, is_text_field, read_text_part, read_file, read_part, continue, upload_document_decoder,
}

-- The content of the last part named "file", or what there was before.
abbrev pub last_file : Form → List ℕ → List ℕ
last_file end old = old
last_file broken old = old
last_file (next_part x form) old = last_file form (if x.form_name == "file" then x.content else old)

take-all : (n : ℕ) (xs : List ℕ) → length xs ≤ n → take n xs ≡ xs
unfolding take
take-all zero [] h = refl
take-all zero (x ∷ xs) h = absurd (omega arith)
take-all (suc n) [] h = refl
take-all (suc n) (x ∷ xs) h = ap (λ ys. x ∷ ys) (take-all n xs (omega arith))

length-take : (n : ℕ) (xs : List ℕ) → n ≤ length xs → length (take n xs) ≡ n
unfolding take
length-take zero xs h = refl
length-take (suc n) [] h = absurd (omega arith)
length-take (suc n) (x ∷ xs) h = ap suc (length-take n xs (omega arith))

-- The file is the content where that fits, and too long where the content is.
abbrev pub Stands : (limit : ℕ) → (file content : List ℕ) → Type 0
Stands limit file content =
    (length content ≤ limit → file ≡ content) × (limit < length content → limit < length file)

take-Stands : (limit : ℕ) (content : List ℕ) → Stands limit (take (limit + 1) content) content
take-Stands limit content = (
  λ h. take-all (limit + 1) content (omega arith),
  λ h. omega (arith, length-take (limit + 1) content (omega arith)),
)

decoded-injective : {p q : UploadProjectDocumentPayload} → decoded p ≡ decoded q → p ≡ q
decoded-injective h = cc

module _ (text_of : List ℕ → String) (parse_media_type : String → Option String) where
  set_field-file :
      (field s : String) (p : UploadProjectDocumentPayload)
      → (set_field text_of parse_media_type field s p).file ≡ p.file
  unfolding set_field
  set_field-file field s p = ground arith

  read_text_part-file :
      (x : Part) (t : Text) (p p' : UploadProjectDocumentPayload)
      → read_text_part text_of parse_media_type x t p ≡ decoded p'
      → p'.file ≡ p.file
  unfolding read_text_part
  read_text_part-file x (bad e) p p' h = absurd (cc h)
  read_text_part-file x (text s) p p' h =
      let same : set_field text_of parse_media_type x.form_name s p ≡ p' = cc in
      ap UploadProjectDocumentPayload.file (sym same) ∙ set_field-file x.form_name s p

  read_file-file :
      (x : Part) (p p' : UploadProjectDocumentPayload)
      → read_file text_of parse_media_type x p ≡ decoded p'
      → p'.file ≡ take (max_document_file_size + 1) x.content
  unfolding read_file
  read_file-file x p p' h = elim (Bool-cases x.unreadable) [
    | inl lost ↦ absurd (let g = rw lost at h in cc g)
    | inr fine ↦
        let g = rw fine at h in ap UploadProjectDocumentPayload.file (sym (decoded-injective g))
  ]

  read_part-Stands :
      (x : Part) (p p' : UploadProjectDocumentPayload) (old : List ℕ)
      → Stands max_document_file_size p.file old
      → read_part text_of parse_media_type x p ≡ decoded p'
      → Stands max_document_file_size p'.file (if x.form_name == "file" then x.content else old)
  unfolding read_part
  read_part-Stands x p p' old h e = elim (Bool-cases (x.form_name == "file")) [
    | inl file ↦
        rw file
          (rw (read_file-file x p p' (rw file at e)) (take-Stands max_document_file_size x.content))
    | inr other ↦
        let e1 = rw other at e in
        rw other (elim (Bool-cases (is_text_field text_of parse_media_type x.form_name)) [
          | inl words ↦
              rw
                (read_text_part-file x (read_text text_of parse_media_type x) p p' (rw words at e1))
                h
          | inr unknown ↦ let same = decoded-injective (rw unknown at e1) in rw (← same) h
        ])
  ]

  continue-decoded :
      (next : UploadProjectDocumentPayload → Decoded) (d : Decoded)
      (p' : UploadProjectDocumentPayload)
      → continue text_of parse_media_type next d ≡ decoded p'
      → (q : UploadProjectDocumentPayload) × (d ≡ decoded q) × (next q ≡ decoded p')
  unfolding continue
  continue-decoded next (decoded q) p' h = (q, refl, h)
  continue-decoded next (refused e) p' h = absurd (cc h)

  decoder-Stands :
      (form : Form) (p p' : UploadProjectDocumentPayload) (old : List ℕ)
      → Stands max_document_file_size p.file old
      → upload_document_decoder text_of parse_media_type form p ≡ decoded p'
      → Stands max_document_file_size p'.file (last_file form old)
  unfolding upload_document_decoder
  decoder-Stands end p p' old h e = rw (← decoded-injective e) h
  decoder-Stands broken p p' old h e = absurd (cc e)
  decoder-Stands (next_part x form) p p' old h e =
      let (q, read, rest) =
        continue-decoded (upload_document_decoder text_of parse_media_type form)
          (read_part text_of parse_media_type x p) p' e in
      decoder-Stands form q p' (if x.form_name == "file" then x.content else old)
        (read_part-Stands x p q old h read) rest

  -- A decoded form, from a payload without a file, has the content of its last part named "file" where
  -- that is no longer than the largest document; where it is longer, what is kept of it is longer than
  -- the largest document too, so that the upload is still refused for its size.
  pub upload_document_decoder-file :
      (form : Form) (p p' : UploadProjectDocumentPayload)
      → p.file ≡ []
      → upload_document_decoder text_of parse_media_type form p ≡ decoded p'
      → let content = last_file form [] in
        (length content ≤ max_document_file_size → p'.file ≡ content)
        × (max_document_file_size < length content → max_document_file_size < length p'.file)
  upload_document_decoder-file form p p' none_yet e =
      decoder-Stands form p p' [] (λ h. none_yet, λ h. absurd (omega arith)) e
