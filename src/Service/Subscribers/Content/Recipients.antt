-- ===== src/Service/Subscribers/Content/Recipients.antt =====
-- collectDocumentRecipients of internal/service/document_subscriber.go.
use lfx_v2_project_service.Prelude.{
  String, Bool, true, false, not, ◌&&◌, ◌⊎◌, ◌↔◌, inl, inr, List, [], ◌∷◌, ◌++◌, ◌==◌, ◌≡◌, refl,
  sym, ap, arith, Bool-cases, Member, All, eq_iff,
}
use mathlib.Core.Path.{subst}
use lfx_v2_project_service.Domain.Model.{UserInfo, ProjectSettings}
use lfx_v2_project_service.Service.Subscribers.Roles.{contains}
use lfx_v2_project_service.Service.Subscribers.Content.{
  is_recipient, recipients_from, collect_document_recipients,
}

-- An account with an email that is not the uploader's.
abbrev pub is_eligible : (uploader_username : String) → UserInfo → Bool
is_eligible uploader u =
    not (u.username == "") && not (u.email == "") && not (u.username == uploader)

abbrev pub usernames : List UserInfo → List String
usernames [] = []
usernames (u ∷ us) = u.username ∷ usernames us

abbrev pub AreDistinct : List String → Type 0
AreDistinct [] = Unit
AreDistinct (x ∷ xs) = (contains x xs ≡ false) × AreDistinct xs

contains_self : (k : String) (seen : List String) → contains k (k ∷ seen) ≡ true
unfolding contains
contains_self k seen = ground (arith, eq_iff k k)

never_met : (k : String) → contains k [] ≡ true → ⊥
unfolding contains
never_met k h = ground arith

Member-to : {x y : String} (xs : List String) → x ≡ y → Member x xs → Member y xs
Member-to xs e m = subst (λ z. Member z xs) e m

module _ (uploader : String) where
  is_recipient_eq :
      (seen : List String) (u : UserInfo)
      → is_recipient uploader seen u ≡ (is_eligible uploader u && not (contains u.username seen))
  unfolding is_recipient
  is_recipient_eq seen u =
      ground (arith, eq_iff u.username uploader, eq_iff u.username "", eq_iff uploader "")

  recipients-unseen :
      (us : List UserInfo) (seen : List String) (k : String)
      → contains k seen ≡ true
      → contains k (usernames (recipients_from uploader seen us)) ≡ false
  unfolding recipients_from contains
  recipients-unseen [] seen k h = refl
  recipients-unseen (u ∷ us) seen k h = ground (
    arith,
    is_recipient_eq seen u,
    eq_iff u.username k,
    recipients-unseen us seen k h,
    recipients-unseen us (u.username ∷ seen) k,
  )

  recipients-AreDistinct :
      (us : List UserInfo) (seen : List String)
      → AreDistinct (usernames (recipients_from uploader seen us))
  unfolding recipients_from
  recipients-AreDistinct [] seen = tt
  recipients-AreDistinct (u ∷ us) seen = elim (Bool-cases (is_recipient uploader seen u)) [
    | inl h ↦ rw h (
      recipients-unseen us (u.username ∷ seen) u.username (contains_self u.username seen),
      recipients-AreDistinct us (u.username ∷ seen),
    )
    | inr h ↦ rw h (recipients-AreDistinct us seen)
  ]

  -- What a recipient is.
  abbrev pub IsChosen : List UserInfo → UserInfo → Type 0
  IsChosen us u = Member u us × (is_eligible uploader u ≡ true)

  weaken :
      (x : UserInfo) (us rs : List UserInfo) → All (IsChosen us) rs → All (IsChosen (x ∷ us)) rs
  weaken x us [] h = tt
  weaken x us (r ∷ rs) h = ((inr h.0.0, h.0.1), weaken x us rs h.1)

  recipients-All :
      (us : List UserInfo) (seen : List String)
      → All (IsChosen us) (recipients_from uploader seen us)
  unfolding recipients_from
  recipients-All [] seen = tt
  recipients-All (u ∷ us) seen = elim (Bool-cases (is_recipient uploader seen u)) [
    | inl h ↦ rw h (
      (inl refl, ground (arith, is_recipient_eq seen u)),
      weaken u us _ (recipients-All us (u.username ∷ seen)),
    )
    | inr h ↦ rw h (weaken u us _ (recipients-All us seen))
  ]

  -- A user that may be told is told, unless the username has been met.
  recipients_complete :
      (us : List UserInfo) (seen : List String) (u : UserInfo)
      → Member u us
      → is_eligible uploader u ≡ true
      → (contains u.username seen ≡ true)
        ⊎ Member u.username (usernames (recipients_from uploader seen us))
  unfolding recipients_from contains
  recipients_complete [] seen u m h = absurd m
  recipients_complete (v ∷ us) seen u m h = elim (Bool-cases (is_recipient uploader seen v)) [
    | inl taken ↦ rw taken (elim m [
      | inl e ↦ inr (inl (ap (λ (x : UserInfo). x.username) e))
      | inr later ↦ elim (recipients_complete us (v.username ∷ seen) u later h) [
        | inr told ↦ inr (inr told)
        | inl met ↦ elim (Bool-cases (v.username == u.username)) [
          | inl same ↦ inr (inl (ground (arith, eq_iff v.username u.username)))
          | inr distinct ↦ inl (ground arith)
        ]
      ]
    ])
    | inr skipped ↦ rw skipped (elim m [
      | inl e ↦ inl (ground (arith, is_recipient_eq seen v))
      | inr later ↦ recipients_complete us seen u later h
    ])
  ]

  usernames_of :
      (rs us : List UserInfo)
      → All (IsChosen us) rs
      → (name : String) → Member name (usernames rs)
      → (u : UserInfo) × IsChosen us u × (u.username ≡ name)
  usernames_of [] us h name m = absurd m
  usernames_of (r ∷ rs) us h name m = elim m [
    | inl e ↦ (r, h.0, sym e)
    | inr later ↦ usernames_of rs us h.1 name later
  ]

-- Every recipient of a notification is a writer or an auditor with a username that is not the
-- uploader's and with an email, the usernames of the recipients are exactly those of such writers and
-- auditors, and none is there twice.
pub collect_document_recipients-exact :
    (s : ProjectSettings) (uploader : String)
    → All (IsChosen uploader (s.writers ++ s.auditors)) (collect_document_recipients s uploader)
      × AreDistinct (usernames (collect_document_recipients s uploader))
      × ((name : String)
          → Member name (usernames (collect_document_recipients s uploader)) ↔ (
              (u : UserInfo) × IsChosen uploader (s.writers ++ s.auditors) u × (u.username ≡ name)))
unfolding collect_document_recipients
collect_document_recipients-exact s uploader =
    let all = s.writers ++ s.auditors in
    (
      recipients-All uploader all [],
      recipients-AreDistinct uploader all [],
      λ name. (
        usernames_of uploader (recipients_from uploader [] all) all (recipients-All uploader all [])
            name,
        λ (u, chosen, named). elim (recipients_complete uploader all [] u chosen.0 chosen.1) [
          | inl met ↦ absurd (never_met u.username met)
          | inr told ↦ Member-to (usernames (recipients_from uploader [] all)) named told
        ],
      ),
    )
