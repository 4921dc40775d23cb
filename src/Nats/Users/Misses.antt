-- ===== src/Nats/Users/Misses.antt =====
-- UsernameByEmail of internal/infrastructure/nats/user_reader.go: what its answers say of the reply.
use lfx_v2_project_service.Prelude.{
  String, true, false, some, ◌⊎◌, inl, inr, ◌↔◌, ◌≡◌, ◌==◌, arith, eq_iff, Bool-cases,
}
use lfx_v2_project_service.Prelude.Text.{trim_space, has_prefix}
use lfx_v2_project_service.Exec.{Result, ok, err}
use lfx_v2_project_service.Domain.Error.{user_not_found}
use lfx_v2_project_service.Nats.Users.{
  AuthReplies, username_in, username_by_email, email_to_username_subject,
}

-- A reply that says that nobody has the email: a blank one, or an envelope with `"success": false`.
abbrev pub IsMiss : AuthReplies → (reply : String) → Type 0
IsMiss replies reply =
    (trim_space reply ≡ "")
    ⊎ ((has_prefix (trim_space reply) "{" ≡ true)
        × (replies.success_field reply ≡ some (some false)))

-- A reply that is a plain username.
abbrev pub IsName : (reply name : String) → Type 0
IsName reply name =
    (trim_space reply ≡ name)
    × (trim_space reply == "" ≡ false)
    × (has_prefix (trim_space reply) "{" ≡ false)

module _ (replies : AuthReplies) {W : Type 0}
    (request : (subject content : String) → W → Result String) where
  username_in-IsMiss :
      (reply : String)
      → username_in replies request reply ≡ err user_not_found
      → IsMiss replies reply
  unfolding username_in
  username_in-IsMiss reply h = elim (Bool-cases (trim_space reply == "")) [
    | inl blank ↦ inl (ground (arith, eq_iff (trim_space reply) ""))
    | inr given ↦ elim (Bool-cases (has_prefix (trim_space reply) "{")) [
      | inl enveloped ↦ inr (enveloped, ground arith)
      | inr plain ↦ absurd (ground arith)
    ]
  ]

  IsMiss-username_in :
      (reply : String)
      → IsMiss replies reply
      → username_in replies request reply ≡ err user_not_found
  unfolding username_in
  IsMiss-username_in reply (inl blank) = ground (arith, eq_iff (trim_space reply) "")
  IsMiss-username_in reply (inr (enveloped, missed)) = ground arith

  username_in-IsName :
      (reply name : String) → username_in replies request reply ≡ ok name → IsName reply name
  unfolding username_in
  username_in-IsName reply name h = elim (Bool-cases (trim_space reply == "")) [
    | inl blank ↦ absurd (ground arith)
    | inr given ↦ elim (Bool-cases (has_prefix (trim_space reply) "{")) [
      | inl enveloped ↦ absurd (ground arith)
      | inr plain ↦ (let g = rw (given, plain, username_in) at h in cc g, given, plain)
    ]
  ]

  IsName-username_in :
      (reply name : String) → IsName reply name → username_in replies request reply ≡ ok name
  unfolding username_in
  IsName-username_in reply name (same, given, plain) = ground arith

  -- When the auth service replies, UsernameByEmail answers ErrUserNotFound exactly for a blank reply
  -- and for an envelope whose `success` is false, and a username exactly for a reply that, with the
  -- white space around it removed, is this name, not empty and no envelope. So a malformed envelope,
  -- one without `success` and one whose `success` is true are other errors.
  pub username_by_email-IsMiss :
      (email : String) (w : W) (reply : String)
      → request email_to_username_subject email w ≡ ok reply
      → ((username_by_email replies request email w ≡ err user_not_found) ↔ IsMiss replies reply)
        × ((name : String)
            → (username_by_email replies request email w ≡ ok name) ↔ IsName reply name)
  unfolding username_by_email
  username_by_email-IsMiss email w reply replied = rw replied (
    (username_in-IsMiss reply, IsMiss-username_in reply),
    λ name. (username_in-IsName reply name, IsName-username_in reply name),
  )
