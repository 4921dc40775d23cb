-- ===== src/Service/Enrich.antt =====
-- enrichAllRoleFields of internal/service/project_operations.go: the username, name and avatar of
-- every user are replaced by what the auth service has for the user's email. Each distinct email is
-- looked up once; the lookups of different emails are independent, so they run here in list order.
pub mod Lookups
use lfx_v2_project_service.Prelude.{
  ℕ, zero, suc, String, Bool, true, false, ◌||◌, Option, none, some, List, [], ◌∷◌, map, ◌==◌,
  if◌then◌else◌,
}
use lfx_v2_project_service.Prelude.Text.{trim_space}
use lfx_v2_project_service.Prelude.Assoc.{lookup, insert}
use lfx_v2_project_service.Exec.{Result, ok, err, bind}
use lfx_v2_project_service.Domain.Error.{Error, internal, is_user_not_found}
use lfx_v2_project_service.Domain.Repository.{UserMetadata, UserReader}
use lfx_v2_project_service.Service.Api.{ApiUser, Users}
use lfx_v2_project_service.Service.Runtime.{Runtime}

pub record EnrichResult : Type 0 where
  pub username : String
  pub metadata : Option UserMetadata

-- `p == nil || strings.TrimSpace(*p) == ""`
abbrev pub is_blank : Option String → Bool
is_blank none = true
is_blank (some s) = trim_space s == ""

abbrev pub Results : Type 0
Results = List (String × EnrichResult)

module _ (rt : Runtime) where
  -- strings.ToLower(strings.TrimSpace(*u.Email)), "" for a missing email
  unfoldable pub norm_email : ApiUser → String
  norm_email u = elim u.email [ none ↦ "" | some e ↦ rt.to_lower (trim_space e) ]

  -- The entries that `gather` puts into `byEmail`.
  unfoldable pub is_gathered : ApiUser → Bool
  unfolding norm_email
  is_gathered u = if is_blank u.email || norm_email u == "" then false else true

  -- What `gather` does to the entries that it does not look up.
  unfoldable pub clear_username : ApiUser → ApiUser
  clear_username u =
      if is_blank u.email
      then (if is_blank u.username then record u { username = some "" } else u)
      else record u { username = some "" }

  -- The keys of `byEmail`.
  unfoldable pub gather_emails : List (String × Unit {0}) → Users → List (String × Unit {0})
  unfolding is_gathered
  gather_emails seen [] = seen
  gather_emails seen (none ∷ us) = gather_emails seen us
  gather_emails seen (some u ∷ us) =
      gather_emails (if is_gathered u then insert (norm_email u) tt seen else seen) us

  gather_slices : List (String × Unit {0}) → List Users → List (String × Unit {0})
  unfolding gather_emails
  gather_slices seen [] = seen
  gather_slices seen (us ∷ uss) = gather_slices (gather_emails seen us) uss

module _ {W : Type 0} (reader : UserReader W) where
  -- Metadata failures are not fatal.
  metadata_for : String → W → Option UserMetadata
  metadata_for username w =
      if username == ""
      then none
      else elim (reader.user_metadata_by_principal username w) [ ok m ↦ some m | err e ↦ none ]

  -- The goroutine of one email.
  unfoldable pub lookup_email : String → W → Result EnrichResult
  unfolding metadata_for
  lookup_email email w = elim (reader.username_by_email email w) [
    | ok username ↦ ok (record { username = username; metadata = metadata_for username w })
    | err e ↦ if is_user_not_found e then ok (record { username = ""; metadata = none }) else err e
  ]

  unfoldable pub lookup_all : List (String × Unit {0}) → W → Result Results
  unfolding lookup_email
  lookup_all [] w = ok []
  lookup_all ((email, _) ∷ emails) w =
      bind (lookup_email email w)
        λ r. bind (lookup_all emails w) λ results. ok ((email, r) ∷ results)

-- The role fields of a payload, in the order in which they are handed over.
abbrev pub nth {ℓ} : {A : Type ℓ} → List (Option A) → ℕ → Option A
nth [] n = none
nth (u ∷ us) zero = u
nth (u ∷ us) (suc n) = nth us n

abbrev pub nth_slice : List Users → ℕ → Users
nth_slice [] n = []
nth_slice (us ∷ uss) zero = us
nth_slice (us ∷ uss) (suc n) = nth_slice uss n

abbrev overwrite : String → Option String → Option String
overwrite new old = if new == "" then old else some new

-- The last loop: what is written back to one entry.
unfoldable pub apply_result : EnrichResult → ApiUser → ApiUser
apply_result r u = elim r.metadata [
  | none ↦ record u { username = some r.username }
  | some m ↦ record u {
    name = overwrite m.name u.name;
    username = some r.username;
    avatar = overwrite m.picture u.avatar;
  }
]

abbrev or_empty : Option EnrichResult → EnrichResult
or_empty none = record { username = ""; metadata = none }
or_empty (some r) = r

module _ (rt : Runtime) where
  unfoldable pub enrich_user : Results → Option ApiUser → Option ApiUser
  unfolding is_gathered norm_email apply_result clear_username
  enrich_user results none = none
  enrich_user results (some u) =
      if is_gathered rt u
      then some (apply_result (or_empty (lookup (norm_email rt u) results)) u)
      else some (clear_username rt u)

  -- `s.UserReader == nil` is refused before anything else.
  unfoldable pub enrich_all_role_fields :
      {W : Type 0} → Option (UserReader W) → List Users → Users → W → Result (List Users × Users)
  unfolding gather_slices lookup_all enrich_user
  enrich_all_role_fields none slices singles w = err internal
  enrich_all_role_fields (some reader) slices singles w =
      bind (lookup_all reader (gather_emails rt (gather_slices rt [] slices) singles) w)
        λ results. ok (map (map (enrich_user results)) slices, map (enrich_user results) singles)
