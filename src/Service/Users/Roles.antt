-- ===== src/Service/Users/Roles.antt =====
-- On how users pass between the API, the store and the access messages
-- (internal/service/converters.go).
use lfx_v2_project_service.Prelude.{
  String, ◌≡◌, ◌≢◌, refl, sym, ◌⊎◌, inl, inr, not, ◌&&◌, some, List, [], ◌∷◌, arith, eq_iff, ◌==◌,
  if◌then◌else◌, Bool-cases, Member, All, All-append, Option-cases, ◌↔◌,
}
use lfx_v2_project_service.Domain.Model.{InviteInfo, UserInfo, ProjectBase, ProjectSettings}
use lfx_v2_project_service.Domain.Message.{AccessData, access_of, delete_of}
use lfx_v2_project_service.Service.Api.{ApiUser}
use lfx_v2_project_service.Service.Runtime.{Runtime}
use lfx_v2_project_service.Service.Users.{
  normalize_email, existing_by_email, user_from_api, extract_usernames,
  build_fga_update_access_message, empty_user, relation, single, extract_username,
}

module _ (rt : Runtime) where
  -- A record with an invite that `existingByEmail` finds is a stored one with that email.
  existing_by_email-Member :
      (found : UserInfo) (existing : List UserInfo) (key : String) (i : InviteInfo)
      → (existing_by_email rt found existing key).invite ≡ some i
      → (existing_by_email rt found existing key ≡ found)
        ⊎ ((u : UserInfo) × Member u existing
            × (normalize_email rt u.email ≡ key)
            × (u.invite ≡ some i))
  unfolding existing_by_email
  existing_by_email-Member found [] key i h = inl refl
  existing_by_email-Member found (u ∷ us) key i h =
      let next = if not (u.email == "") && normalize_email rt u.email == key then u else found in
      elim (existing_by_email-Member next us key i h) [
        | inr (x, m, same, has) ↦ inr (x, inr m, same, has)
        | inl e ↦ elim (Bool-cases (not (u.email == "") && normalize_email rt u.email == key)) [
          | inl taken ↦
              inr
                (u, inl refl, ground (arith, eq_iff (normalize_email rt u.email) key), ground arith)
          | inr left ↦ inl (ground arith)
        ]
      ]

  -- An invite of a converted user is the invite of an existing user with the same normalised
  -- email, and the payload states that email.
  pub user_from_api-invite :
      (existing : List UserInfo) (api_user : ApiUser) (i : InviteInfo)
      → (user_from_api rt existing (some api_user)).invite ≡ some i
      → (email : String) × (u : UserInfo) × (api_user.email ≡ some email)
        × Member u existing
        × (normalize_email rt u.email ≡ normalize_email rt email)
        × (u.invite ≡ some i)
  unfolding user_from_api
  user_from_api-invite existing api_user i h = elim (Option-cases api_user.email) [
    | inl missing ↦ absurd (ground arith)
    | inr (email, given) ↦
        elim (existing_by_email-Member empty_user existing (normalize_email rt email) i
          (ground arith)) [
            | inl fresh ↦ absurd (ground arith)
            | inr (u, m, same, has) ↦ (email, u, given, m, same, has)
          ]
  ]

-- extractUsernames gives exactly the nonempty usernames of the users.
pub extract_usernames_iff :
    (users : List UserInfo) (name : String)
    → Member name (extract_usernames users)
      ↔ ((u : UserInfo) × Member u users × (u.username ≡ name) × (name ≢ ""))
unfolding extract_usernames
extract_usernames_iff [] name = (λ m. absurd m, λ h. absurd h.1)
extract_usernames_iff (u ∷ us) name = elim (Bool-cases (u.username == "")) [
  | inl empty ↦ rw empty (
    λ m.
        let (x, member, named, given) = (extract_usernames_iff us name).0 m in
        (x, inr member, named, given),
    λ (x, member, named, given). elim member [
      | inl e ↦ absurd (ground (arith, eq_iff u.username ""))
      | inr later ↦ (extract_usernames_iff us name).1 (x, later, named, given)
    ],
  )
  | inr given ↦ rw given (
    λ m. elim m [
      | inl e ↦ (u, inl refl, sym e, ground (arith, eq_iff u.username ""))
      | inr later ↦
          let (x, member, named, full) = (extract_usernames_iff us name).0 later in
          (x, inr member, named, full)
    ],
    λ (x, member, named, full). elim member [
      | inl e ↦ inl (ground arith)
      | inr later ↦ inr ((extract_usernames_iff us name).1 (x, later, named, full))
    ],
  )
]

abbrev pub relations_of : AccessData → List (String × List String)
relations_of (access_of uid public relations references) = relations
relations_of (delete_of uid) = []

abbrev pub Named : String × List String → Type 0
Named r = (r.1 ≢ []) × All (λ name. name ≢ "") r.1

extract_usernames-Named :
    (users : List UserInfo) → All (λ name. name ≢ "") (extract_usernames users)
unfolding extract_usernames
extract_usernames-Named [] = tt
extract_usernames-Named (u ∷ us) = elim (Bool-cases (u.username == "")) [
  | inl empty ↦ rw empty (extract_usernames-Named us)
  | inr given ↦ rw given (ground (arith, eq_iff u.username ""), extract_usernames-Named us)
]

relation-Named :
    (name : String) (l : List String) → All (λ name. name ≢ "") l → All Named (relation name l)
relation-Named name [] h = tt
relation-Named name (u ∷ us) h = ((λ e. cc, h), tt)

single-Named : (name : String) → All (λ name. name ≢ "") (single name)
single-Named name = elim (Bool-cases (name == "")) [
  | inl empty ↦ rw empty tt
  | inr given ↦ rw given (ground (arith, eq_iff name ""), tt)
]

-- No relation in an access update message is empty, and none holds an empty username.
pub build_fga-Named :
    (rt : Runtime) (base : ProjectBase) (settings : ProjectSettings)
    → All Named (relations_of (build_fga_update_access_message rt base settings).content)
unfolding build_fga_update_access_message
build_fga-Named rt base settings =
    let role = λ (name : String) (us : List UserInfo).
      relation-Named name (extract_usernames us) (extract_usernames-Named us) in
    let director = extract_username settings.executive_director in
    All-append Named _ _ (role rt.relation_writer settings.writers) (
      All-append Named _ _ (role rt.relation_auditor settings.auditors) (
        All-append Named _ _ (role rt.relation_meeting_coordinator settings.meeting_coordinators)
          (relation-Named "executive_director" (single director) (single-Named director))))
