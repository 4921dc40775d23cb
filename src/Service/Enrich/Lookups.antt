-- ===== src/Service/Enrich/Lookups.antt =====
-- On enrichAllRoleFields of internal/service/project_operations.go: the batched lookups against one
-- lookup per user.
use lfx_v2_project_service.Prelude.{
  String, ◌≡◌, refl, sym, ap, ap₂, ◌∙◌, inl, inr, true, Option, none, some, List, [], ◌∷◌, map,
  arith, eq_iff, ◌==◌, if◌then◌else◌, Bool-cases, Member,
}
use lfx_v2_project_service.Prelude.Assoc.{lookup, insert, lookup-insert}
use lfx_v2_project_service.Exec.{ok, err, bind, bind-eq-ok}
use lfx_v2_project_service.Domain.Repository.{UserReader}
use lfx_v2_project_service.Service.Api.{ApiUser, Users}
use lfx_v2_project_service.Service.Runtime.{Runtime}
use lfx_v2_project_service.Service.Enrich.{
  EnrichResult, Results, norm_email, is_gathered, clear_username, gather_emails, gather_slices,
  lookup_email, lookup_all, apply_result, enrich_user, enrich_all_role_fields,
}

map-agree :
    {A C : Type 0} (f g : A → C) (xs : List A)
    → ((x : A) → Member x xs → f x ≡ g x)
    → map f xs ≡ map g xs
map-agree f g [] h = refl
map-agree f g (x ∷ xs) h = ap₂ ◌∷◌ (h x (inl refl)) (map-agree f g xs (λ y m. h y (inr m)))

module _ (rt : Runtime) where
  -- One user looked up alone.
  unfoldable pub enrich_directly : {W : Type 0} → UserReader W → W → Option ApiUser → Option ApiUser
  enrich_directly reader w none = none
  enrich_directly reader w (some u) =
      if is_gathered rt u
      then (elim (lookup_email reader (norm_email rt u) w) [
        | ok r ↦ some (apply_result r u)
        | err e ↦ some u
      ])
      else some (clear_username rt u)

  gather_emails-keeps :
      (k : String) (seen : List (String × Unit {0})) (us : Users)
      → lookup k seen ≡ some tt
      → lookup k (gather_emails rt seen us) ≡ some tt
  unfolding gather_emails
  gather_emails-keeps k seen [] h = h
  gather_emails-keeps k seen (none ∷ us) h = gather_emails-keeps k seen us h
  gather_emails-keeps k seen (some u ∷ us) h =
      gather_emails-keeps k (if is_gathered rt u then insert (norm_email rt u) tt seen else seen) us
        (ground (arith, lookup-insert seen tt (norm_email rt u) k))

  gather_emails-Member :
      (u : ApiUser) (seen : List (String × Unit {0})) (us : Users)
      → Member (some u) us
      → is_gathered rt u ≡ true
      → lookup (norm_email rt u) (gather_emails rt seen us) ≡ some tt
  unfolding gather_emails
  gather_emails-Member u seen [] m h = absurd m
  gather_emails-Member u seen (none ∷ us) (inl e) h = cc
  gather_emails-Member u seen (none ∷ us) (inr m) h = gather_emails-Member u seen us m h
  gather_emails-Member u seen (some v ∷ us) (inl e) h =
      gather_emails-keeps (norm_email rt u)
        (if is_gathered rt v then insert (norm_email rt v) tt seen else seen) us
        (ground (
          arith,
          lookup-insert seen tt (norm_email rt v) (norm_email rt u),
          eq_iff (norm_email rt v) (norm_email rt u),
        ))
  gather_emails-Member u seen (some v ∷ us) (inr m) h =
      gather_emails-Member u (if is_gathered rt v then insert (norm_email rt v) tt seen else seen)
        us m h

  gather_slices-keeps :
      (k : String) (seen : List (String × Unit {0})) (uss : List Users)
      → lookup k seen ≡ some tt
      → lookup k (gather_slices rt seen uss) ≡ some tt
  unfolding gather_slices
  gather_slices-keeps k seen [] h = h
  gather_slices-keeps k seen (us ∷ uss) h =
      gather_slices-keeps k (gather_emails rt seen us) uss (gather_emails-keeps k seen us h)

  gather_slices-Member :
      (u : ApiUser) (seen : List (String × Unit {0})) (us : Users) (uss : List Users)
      → Member us uss
      → Member (some u) us
      → is_gathered rt u ≡ true
      → lookup (norm_email rt u) (gather_slices rt seen uss) ≡ some tt
  unfolding gather_slices
  gather_slices-Member u seen us [] n m h = absurd n
  gather_slices-Member u seen us (vs ∷ uss) (inl e) m h =
      gather_slices-keeps (norm_email rt u) (gather_emails rt seen vs) uss
        (gather_emails-Member u seen vs (rw (← e) m) h)
  gather_slices-Member u seen us (vs ∷ uss) (inr n) m h =
      gather_slices-Member u (gather_emails rt seen vs) us uss n m h

lookup_all-lookup :
    {W : Type 0} (reader : UserReader W) (w : W) (emails : List (String × Unit {0})) (k : String)
    (results : Results)
    → lookup_all reader emails w ≡ ok results
    → lookup k emails ≡ some tt
    → (r : EnrichResult) × (lookup k results ≡ some r) × (lookup_email reader k w ≡ ok r)
unfolding lookup_all lookup
lookup_all-lookup reader w [] k results h l = absurd (ground arith)
lookup_all-lookup reader w ((email, _) ∷ emails) k results h l =
    let (r, here, e1) =
      bind-eq-ok (lookup_email reader email w)
        (λ r. bind (lookup_all reader emails w) (λ rs. ok ((email, r) ∷ rs))) h in
    let (rs, rest, e2) = bind-eq-ok (lookup_all reader emails w) (λ rs. ok ((email, r) ∷ rs)) e1 in
    let same : results ≡ (email, r) ∷ rs = ground arith in
    rw same (elim (Bool-cases (email == k)) [
      | inl found ↦ rw found (r, refl, ground (arith, eq_iff email k))
      | inr other ↦ rw other (lookup_all-lookup reader w emails k rs rest (ground arith))
    ])

ok-injective : {A : Type 0} {a b : A} → ok a ≡ ok b → a ≡ b
ok-injective h = cc

module _ (rt : Runtime) {W : Type 0} (reader : UserReader W) (w : W) where
  enrich_user-directly :
      (emails : List (String × Unit {0})) (results : Results) (x : Option ApiUser)
      → lookup_all reader emails w ≡ ok results
      → ((u : ApiUser)
          → x ≡ some u
          → is_gathered rt u ≡ true
          → lookup (norm_email rt u) emails ≡ some tt)
      → enrich_user rt results x ≡ enrich_directly rt reader w x
  unfolding enrich_user enrich_directly
  enrich_user-directly emails results none h g = refl
  enrich_user-directly emails results (some u) h g = elim (Bool-cases (is_gathered rt u)) [
    | inl gathered ↦
        let (r, found, looked) =
          lookup_all-lookup reader w emails (norm_email rt u) results h (g u refl gathered) in
        rw (gathered, found, looked)
    | inr skipped ↦ rw skipped
  ]

  -- A successful enrichAllRoleFields with a user reader gives every user of every slice, and
  -- every single role, what a lookup of that user alone gives.
  pub enrich_all-directly :
      (slices : List Users) (singles : Users) (out : List Users × Users)
      → enrich_all_role_fields rt (some reader) slices singles w ≡ ok out
      → (out.0 ≡ map (map (enrich_directly rt reader w)) slices)
        × (out.1 ≡ map (enrich_directly rt reader w) singles)
  unfolding enrich_all_role_fields
  enrich_all-directly slices singles out h =
      let emails = gather_emails rt (gather_slices rt [] slices) singles in
      let (results, looked, e) =
        bind-eq-ok (lookup_all reader emails w)
          (λ rs. ok (map (map (enrich_user rt rs)) slices, map (enrich_user rt rs) singles))
          {b = out} h in
      let same : out
          ≡ (map (map (enrich_user rt results)) slices, map (enrich_user rt results) singles) =
        ok-injective (sym e) in
      (
        ap (λ o. o.0) same
            ∙ map-agree (map (enrich_user rt results)) (map (enrich_directly rt reader w)) slices
                (λ us n. map-agree (enrich_user rt results) (enrich_directly rt reader w) us (λ x m.
                  enrich_user-directly emails results x looked (λ u is h.
                    gather_emails-keeps rt (norm_email rt u) (gather_slices rt [] slices) singles
                      (gather_slices-Member rt u [] us slices n (rw (← is) m) h)))),
        ap (λ o. o.1) same
            ∙ map-agree (enrich_user rt results) (enrich_directly rt reader w) singles (λ x m.
              enrich_user-directly emails results x looked (λ u is h.
                gather_emails-Member rt u (gather_slices rt [] slices) singles (rw (← is) m) h)),
      )
