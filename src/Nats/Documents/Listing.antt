-- ===== src/Nats/Documents/Listing.antt =====
-- On ListDocuments of internal/infrastructure/nats/repository.go.
use lfx_v2_project_service.Prelude.{
  ℕ, String, ◌≡◌, refl, inl, inr, true, false, Option, some, List, [], ◌∷◌, arith, eq_iff, ◌==◌,
  if◌then◌else◌, Bool-cases, Member, Member-along,
}
use lfx_v2_project_service.Prelude.Text.{has_prefix}
use lfx_v2_project_service.Exec.{ok, bind, map_err, bind-eq-ok}
use lfx_v2_project_service.Domain.Error.{unmarshal}
use lfx_v2_project_service.Domain.Model.{ProjectDocument}
use lfx_v2_project_service.Nats.Kv.{Entry, json, unmarshal_value}
use lfx_v2_project_service.Nats.Laws.{entry, KeyValueLaws, is_listed, Reply-cases}
use lfx_v2_project_service.Nats.Repository.{NatsRepository, World}
use lfx_v2_project_service.Nats.Documents.{list_document_keys, list_documents}

json-injective :
    {p q : ProjectDocument} {r n : ℕ}
    → ◌≡◌ {A = Option (Entry ProjectDocument)} (some (entry (json p) r)) (some (entry (json q) n))
    → p ≡ q
json-injective h = cc

module _ {B : Type 0 → Type 0} (sha256_hex : String → String) (s : NatsRepository B)
    (peek : B ProjectDocument → String → Option (Entry ProjectDocument))
    (laws : KeyValueLaws s.documents peek) (w : World B) (project_uid : String) where
  own : ProjectDocument → List ProjectDocument → List ProjectDocument
  own d docs = if d.project_uid == project_uid then d ∷ docs else docs

  -- A successful round over a key that is no lookup key.
  list_document_keys-cons :
      (k : String) (keys : List String) (docs : List ProjectDocument)
      → has_prefix k "lookup/" ≡ false
      → list_document_keys sha256_hex s project_uid (k ∷ keys) w ≡ ok docs
      → (d : ProjectDocument) × (n : ℕ) × (rest : List ProjectDocument) × (peek w.documents k
          ≡ some (entry (json d) n))
        × (list_document_keys sha256_hex s project_uid keys w ≡ ok rest)
        × (docs ≡ own d rest)
  unfolding list_document_keys own
  list_document_keys-cons k keys docs h e = elim (Reply-cases (s.documents.get w.documents k)) [
    | inr (c, failure) ↦ absurd (ground arith)
    | inl (x, got) ↦
        let tail = list_document_keys sha256_hex s project_uid keys w in
        let (d, decoded, e1) =
          bind-eq-ok (map_err (λ _. unmarshal) (unmarshal_value x.value))
            (λ d. bind tail (λ ds. ok (if d.project_uid == project_uid then d ∷ ds else ds)))
            {b = docs} (ground arith) in
        let (rest, later, e2) =
          bind-eq-ok tail (λ ds. ok (if d.project_uid == project_uid then d ∷ ds else ds)) e1 in
        let stored = laws.get_done w.documents k x got in
        (d, x.revision, rest, ground arith, later, ground arith)
  ]

  -- A document of the project that is stored.
  abbrev IsStored : ProjectDocument → Type 0
  IsStored d =
      (k : String) × (n : ℕ) × (d.project_uid ≡ project_uid)
      × (peek w.documents k ≡ some (entry (json d) n))

  list_document_keys-IsStored :
      (keys : List String) (docs : List ProjectDocument) (d : ProjectDocument)
      → list_document_keys sha256_hex s project_uid keys w ≡ ok docs
      → Member d docs
      → IsStored d
  unfolding list_document_keys own
  list_document_keys-IsStored [] docs d e m =
      let nothing : docs ≡ [] = ground arith in absurd (Member-along d docs [] nothing m)
  list_document_keys-IsStored (k ∷ keys) docs d e m = elim (Bool-cases (has_prefix k "lookup/")) [
    | inl lookup_key ↦ list_document_keys-IsStored keys docs d (ground arith) m
    | inr record_key ↦
        let (x, n, rest, stored, later, same) = list_document_keys-cons k keys docs record_key e in
        let next = list_document_keys-IsStored keys rest d later in
        let split : Member d (own x rest) = Member-along d docs (own x rest) same m in
        elim (Bool-cases (x.project_uid == project_uid)) [
          | inl mine ↦
              let own_eq : own x rest ≡ x ∷ rest = ground arith in
              let parts : Member d (x ∷ rest) =
                Member-along d (own x rest) (x ∷ rest) own_eq split in
              elim parts [
                | inl e2 ↦ (k, n, ground (arith, eq_iff x.project_uid project_uid), ground arith)
                | inr there ↦ next there
              ]
          | inr other ↦
              let own_eq : own x rest ≡ rest = ground arith in
              next (Member-along d (own x rest) rest own_eq split)
        ]
  ]

  list_document_keys-Member :
      (keys : List String) (key : String) (d : ProjectDocument) (r : ℕ)
      (docs : List ProjectDocument)
      → peek w.documents key ≡ some (entry (json d) r)
      → has_prefix key "lookup/" ≡ false
      → d.project_uid ≡ project_uid
      → is_listed key keys ≡ true
      → list_document_keys sha256_hex s project_uid keys w ≡ ok docs
      → Member d docs
  unfolding list_document_keys is_listed own
  list_document_keys-Member [] key d r docs h n u l e = ground arith
  list_document_keys-Member (k ∷ keys) key d r docs h n u l e =
      let step = λ (qs : List ProjectDocument). list_document_keys-Member keys key d r qs h n u in
      elim (Bool-cases (has_prefix k "lookup/")) [
        | inl lookup_key ↦ step docs (ground (arith, eq_iff k key)) (ground arith)
        | inr record_key ↦
            let (x, m, rest, stored, later, same) =
              list_document_keys-cons k keys docs record_key e in
            elim (Bool-cases (k == key)) [
              | inl here ↦
                  let found : x ≡ d =
                    json-injective {r = m} {n = r} (ground (arith, eq_iff k key)) in
                  let kept : docs ≡ d ∷ rest = ground (arith, eq_iff d.project_uid project_uid) in
                  rw kept (inl refl)
              | inr there ↦
                  let member = step rest (ground arith) later in
                  elim (Bool-cases (x.project_uid == project_uid)) [
                    | inl mine ↦ let kept : docs ≡ x ∷ rest = ground arith in rw kept (inr member)
                    | inr other ↦ let kept : docs ≡ rest = ground arith in rw kept member
                  ]
            ]
      ]

  -- A successful ListDocuments lists stored documents of the project only, and every document of
  -- the project that is stored under a key that does not begin with "lookup/".
  pub list_documents_exact :
      (docs : List ProjectDocument)
      → list_documents sha256_hex s project_uid w ≡ ok docs
      → ((d : ProjectDocument)
          → Member d docs
          → (k : String) × (n : ℕ) × (d.project_uid ≡ project_uid)
            × (peek w.documents k ≡ some (entry (json d) n)))
        × ((key : String) (d : ProjectDocument) (r : ℕ)
            → peek w.documents key ≡ some (entry (json d) r)
            → has_prefix key "lookup/" ≡ false
            → d.project_uid ≡ project_uid
            → Member d docs)
  unfolding list_documents
  list_documents_exact docs e = elim (Reply-cases (s.documents.list_keys w.documents)) [
    | inr (c, failure) ↦ absurd (ground arith)
    | inl (keys, listed) ↦
        let loop : list_document_keys sha256_hex s project_uid keys w ≡ ok docs = ground arith in
        (
          λ d m. list_document_keys-IsStored keys docs d loop m,
          λ key d r h n u.
              list_document_keys-Member keys key d r docs h n u
                (laws.list_complete w.documents keys key (entry (json d) r) listed h) loop,
        )
  ]
