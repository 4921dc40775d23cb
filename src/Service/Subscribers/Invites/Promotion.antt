-- ===== src/Service/Subscribers/Invites/Promotion.antt =====
-- The promotion of email-only entries in promoteInvitedUserInProjectSettings of
-- internal/service/project_subscriber.go.
use lfx_v2_project_service.Prelude.{
  String, true, false, ◌⊎◌, inl, inr, none, List, [], ◌∷◌, ◌==◌, ◌≡◌, refl, arith, eq_iff,
  Bool-cases,
}
use lfx_v2_project_service.Domain.Model.{UserInfo, ProjectSettings}
use lfx_v2_project_service.Service.Runtime.{Runtime}
use lfx_v2_project_service.Service.Subscribers.Roles.{InviteRoles}
use lfx_v2_project_service.Service.Subscribers.Invites.{
  is_email_only_match, any_email_only_match, has_email_only_entry, promote_slice, promote_settings,
}

module _ (rt : Runtime) (levels : InviteRoles) (email username : String) where
  -- An entry of a slice for the role `level` is kept, or the invite was for that role, the entry was
  -- a match, and now it has the account and no invite.
  abbrev pub IsCarried : (level role : String) → UserInfo → UserInfo → Type 0
  IsCarried level role u v =
      (v ≡ u)
      ⊎ ((role ≡ level)
          × (is_email_only_match rt levels email u ≡ true)
          × (v ≡ record u { username = username; invite = none }))

  abbrev pub AreCarried : (level role : String) → List UserInfo → List UserInfo → Type 0
  AreCarried level role [] [] = Unit
  AreCarried level role (u ∷ us) (v ∷ vs) = IsCarried level role u v × AreCarried level role us vs
  AreCarried level role _ _ = ⊥

  same-AreCarried : (level role : String) (us : List UserInfo) → AreCarried level role us us
  same-AreCarried level role [] = tt
  same-AreCarried level role (u ∷ us) = (inl refl, same-AreCarried level role us)

  promote_slice-AreCarried :
      (level role : String)
      → role ≡ level
      → (us : List UserInfo)
      → AreCarried level role us (promote_slice rt levels email username us).0
  unfolding promote_slice
  promote_slice-AreCarried level role same [] = tt
  promote_slice-AreCarried level role same (u ∷ us) =
      elim (Bool-cases (is_email_only_match rt levels email u)) [
        | inl h ↦ rw h (inr (same, h, refl), promote_slice-AreCarried level role same us)
        | inr h ↦ rw h (inl refl, promote_slice-AreCarried level role same us)
      ]

  promote_slice-none_left :
      (username == "" ≡ false)
      → (us : List UserInfo)
      → any_email_only_match rt levels email (promote_slice rt levels email username us).0 ≡ false
  unfolding promote_slice any_email_only_match is_email_only_match
  promote_slice-none_left named [] = refl
  promote_slice-none_left named (u ∷ us) = ground (arith, promote_slice-none_left named us)

  promote_slice-flag :
      (us : List UserInfo)
      → (promote_slice rt levels email username us).1 ≡ any_email_only_match rt levels email us
  unfolding promote_slice any_email_only_match
  promote_slice-flag [] = refl
  promote_slice-flag (u ∷ us) = ground (arith, promote_slice-flag us)

  -- The slices of users after a promotion, those of writers and meeting coordinators for the role to
  -- manage and that of auditors for the role to view, and all else as it was.
  abbrev pub IsPromoted : (role : String) → ProjectSettings → ProjectSettings → Type 0
  IsPromoted role s p =
      AreCarried levels.manage role s.writers p.writers
      × AreCarried levels.view role s.auditors p.auditors
      × AreCarried levels.manage role s.meeting_coordinators p.meeting_coordinators
      × (p ≡ record s {
        writers = p.writers;
        auditors = p.auditors;
        meeting_coordinators = p.meeting_coordinators;
      })

  promote_settings-IsPromoted :
      (role : String) (s : ProjectSettings)
      → IsPromoted role s (promote_settings rt levels email username role s).0
  unfolding promote_settings
  promote_settings-IsPromoted role s = elim (Bool-cases (role == levels.manage)) [
    | inl h ↦
        let manages = (eq_iff role levels.manage).0 h in
        rw h (
          promote_slice-AreCarried levels.manage role manages s.writers,
          same-AreCarried levels.view role s.auditors,
          promote_slice-AreCarried levels.manage role manages s.meeting_coordinators,
          refl,
        )
    | inr h ↦ elim (Bool-cases (role == levels.view)) [
      | inl k ↦
          let views = (eq_iff role levels.view).0 k in
          rw h (
            rw k (
              same-AreCarried levels.manage role s.writers,
              promote_slice-AreCarried levels.view role views s.auditors,
              same-AreCarried levels.manage role s.meeting_coordinators,
              refl,
            ))
      | inr k ↦ rw h (
          rw k (
            same-AreCarried levels.manage role s.writers,
            same-AreCarried levels.view role s.auditors,
            same-AreCarried levels.manage role s.meeting_coordinators,
            refl,
          ))
    ]
  ]

  promote_settings-flag :
      (role : String) (s : ProjectSettings)
      → (promote_settings rt levels email username role s).1
        ≡ has_email_only_entry rt levels s email role
  unfolding promote_settings has_email_only_entry
  promote_settings-flag role s = ground (
    arith,
    promote_slice-flag s.writers,
    promote_slice-flag s.auditors,
    promote_slice-flag s.meeting_coordinators,
  )

  promote_settings-none_left :
      (role : String) (s : ProjectSettings)
      → (username == "" ≡ false)
      → has_email_only_entry rt levels
          (promote_settings rt levels email username role s).0
          email
          role
        ≡ false
  unfolding promote_settings has_email_only_entry
  promote_settings-none_left role s named = ground (
    arith,
    promote_slice-none_left named s.writers,
    promote_slice-none_left named s.auditors,
    promote_slice-none_left named s.meeting_coordinators,
  )

  -- A promotion for a role with a nonempty username tells whether there was an email-only entry for
  -- the role, leaves none, and keeps every entry in its place as it was, but for the matching
  -- email-only entries of the slices for that role (writers and meeting coordinators for the role to
  -- manage, auditors for the role to view), which get the username and lose their invite; nothing
  -- else in the settings changes.
  pub promote_settings_complete :
      (role : String) (s : ProjectSettings)
      → (username == "" ≡ false)
      → ((promote_settings rt levels email username role s).1
          ≡ has_email_only_entry rt levels s email role)
        × (has_email_only_entry rt levels
              (promote_settings rt levels email username role s).0
              email
              role
            ≡ false)
        × IsPromoted role s (promote_settings rt levels email username role s).0
  promote_settings_complete role s named = (
    promote_settings-flag role s,
    promote_settings-none_left role s named,
    promote_settings-IsPromoted role s,
  )
