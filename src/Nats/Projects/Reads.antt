-- ===== src/Nats/Projects/Reads.antt =====
-- On the reading methods on projects of internal/infrastructure/nats/repository.go.
use lfx_v2_project_service.Prelude.{
  ℕ, String, ◌≡◌, ◌⊎◌, inl, inr, true, false, Option, some, List, [], ◌∷◌, arith, eq_iff, ◌==◌,
  Bool-cases, Member,
}
use lfx_v2_project_service.Prelude.Text.{has_prefix}
use lfx_v2_project_service.Exec.{ok, err, bind, map_err, bind-eq-ok}
use lfx_v2_project_service.Domain.Error.{unmarshal, internal}
use lfx_v2_project_service.Domain.Model.{ProjectBase}
use lfx_v2_project_service.Nats.Kv.{Entry, json, plain, unmarshal_value}
use lfx_v2_project_service.Nats.Laws.{entry, KeyValueLaws, is_listed, Reply-cases}
use lfx_v2_project_service.Nats.Repository.{NatsRepository, World}
use lfx_v2_project_service.Nats.Projects.{
  slug_key, get_project_base, get_project_uid_from_slug, list_base_keys, list_all_projects_base,
}

module _ {B : Type 0 → Type 0} (s : NatsRepository B)
    (peek : B ProjectBase → String → Option (Entry ProjectBase))
    (laws : KeyValueLaws s.projects peek) (w : World B) where
  -- GetProjectBase of a stored project answers it, or ErrInternal when the bucket fails.
  pub get_project_base-stored :
      (key : String) (base : ProjectBase) (r : ℕ)
      → peek w.projects key ≡ some (entry (json base) r)
      → (get_project_base s key w ≡ ok base) ⊎ (get_project_base s key w ≡ err internal)
  unfolding get_project_base
  get_project_base-stored key base r h = elim (Reply-cases (s.projects.get w.projects key)) [
    | inl (e, got) ↦ inl (ground (arith, laws.get_done w.projects key e got))
    | inr (c, failure) ↦ inr (ground (arith, laws.get_missing w.projects key c failure))
  ]

  -- GetProjectUIDFromSlug of a stored slug key answers its UID, or ErrInternal when the bucket fails.
  pub get_project_uid_from_slug-stored :
      (slug uid : String) (r : ℕ)
      → peek w.projects (slug_key slug) ≡ some (entry (plain uid) r)
      → (get_project_uid_from_slug s slug w ≡ ok uid)
        ⊎ (get_project_uid_from_slug s slug w ≡ err internal)
  unfolding get_project_uid_from_slug
  get_project_uid_from_slug-stored slug uid r h =
      elim (Reply-cases (s.projects.get w.projects (slug_key slug))) [
        | inl (e, got) ↦ inl (ground (arith, laws.get_done w.projects (slug_key slug) e got))
        | inr (c, failure) ↦
            inr (ground (arith, laws.get_missing w.projects (slug_key slug) c failure))
      ]

  list_base_keys_complete :
      (keys : List String) (key : String) (base : ProjectBase) (r : ℕ) (ps : List ProjectBase)
      → peek w.projects key ≡ some (entry (json base) r)
      → has_prefix key "slug/" ≡ false
      → is_listed key keys ≡ true
      → list_base_keys s keys w ≡ ok ps
      → Member base ps
  unfolding list_base_keys is_listed
  list_base_keys_complete [] key base r ps h n l e = ground arith
  list_base_keys_complete (k ∷ keys) key base r ps h n l e =
      let step = λ (qs : List ProjectBase). list_base_keys_complete keys key base r qs h n in
      elim (Bool-cases (has_prefix k "slug/")) [
        | inl slug ↦ step ps (ground (arith, eq_iff k key)) (ground arith)
        | inr record_key ↦ elim (Reply-cases (s.projects.get w.projects k)) [
          | inl (x, got) ↦
              let (project, decoded, e1) =
                bind-eq-ok (map_err (λ _. unmarshal) (unmarshal_value x.value))
                  (λ p. bind (list_base_keys s keys w) (λ qs. ok (p ∷ qs))) {b = ps}
                  (ground arith) in
              let (qs, rest, e2) =
                bind-eq-ok (list_base_keys s keys w) (λ qs. ok (project ∷ qs)) e1 in
              let e3 : ps ≡ project ∷ qs = ground arith in
              rw e3 (elim (Bool-cases (k == key)) [
                | inl here ↦ inl (ground (arith, eq_iff k key, laws.get_done w.projects k x got))
                | inr there ↦ inr (step qs (ground arith) rest)
              ])
          | inr (c, failure) ↦ absurd (ground arith)
        ]
      ]

  -- A successful ListAllProjectsBase lists every project stored under a key that does not begin
  -- with "slug/".
  pub list_all_projects_base_complete :
      (key : String) (base : ProjectBase) (r : ℕ) (ps : List ProjectBase)
      → peek w.projects key ≡ some (entry (json base) r)
      → has_prefix key "slug/" ≡ false
      → list_all_projects_base s w ≡ ok ps
      → Member base ps
  unfolding list_all_projects_base
  list_all_projects_base_complete key base r ps h n e =
      elim (Reply-cases (s.projects.list_keys w.projects)) [
        | inl (keys, listed) ↦
            list_base_keys_complete keys key base r ps h n
              (laws.list_complete w.projects keys key (entry (json base) r) listed h) (ground arith)
        | inr (c, failure) ↦ absurd (ground arith)
      ]
