-- ===== src/Service/Subscribers/Diff/Shape.antt =====
-- The changes that diffUserChanges of internal/service/project_subscriber.go reports as added.
use mathlib.Core.Path.{subst}
use lfx_v2_project_service.Prelude.{
  String, Bool, true, false, inl, inr, Option, none, some, List, [], ◌∷◌, ◌++◌, ◌==◌, ◌≡◌, refl,
  sym, ap, ◌∙◌, arith, Bool-cases, Option-cases, Member, Member-append, All,
}
use lfx_v2_project_service.Prelude.Assoc.{lookup, insert}
use lfx_v2_project_service.Domain.Model.{UserInfo, ProjectSettings}
use lfx_v2_project_service.Service.Runtime.{Runtime}
use lfx_v2_project_service.Service.Subscribers.Roles.{contains, roles_equal}
use lfx_v2_project_service.Service.Subscribers.Diff.{
  added, changed, removed, UserChange, RoleEntry, RoleMap, entry_or_zero, find_canon, member_keys,
  add_role, add_with_keys, add_member, add_members, build_map, change_from, new_entry_change,
  new_changes, old_entry_change, old_changes, diff_user_changes,
}
use lfx_v2_project_service.Service.Subscribers.Diff.Keys.{members, find_canon-none, build_map-known}

abbrev pub is_nonempty : List String → Bool
is_nonempty [] = false
is_nonempty (r ∷ rs) = true

abbrev HasRoles : String × RoleEntry → Type 0
HasRoles p = is_nonempty p.1.roles ≡ true

pub nonempty-append : (xs : List String) (r : String) → is_nonempty (xs ++ r ∷ []) ≡ true
nonempty-append [] r = refl
nonempty-append (x ∷ xs) r = refl

pub contains-nonempty :
    (r : String) (xs : List String) → contains r xs ≡ true → is_nonempty xs ≡ true
unfolding contains
contains-nonempty r [] h = absurd (ground arith)
contains-nonempty r (x ∷ xs) h = refl

add_role-nonempty :
    (rt : Runtime) (u : UserInfo) (role : String) (e : RoleEntry)
    → is_nonempty (add_role rt u role e).roles ≡ true
unfolding add_role
add_role-nonempty rt u role e = elim (Bool-cases (contains role e.roles)) [
  | inl h ↦ rw h (contains-nonempty role e.roles h)
  | inr h ↦ rw h (nonempty-append e.roles role)
]

insert-HasRoles :
    (key : String) (e : RoleEntry) (m : List (String × RoleEntry))
    → is_nonempty e.roles ≡ true
    → All HasRoles m
    → All HasRoles (insert key e m)
unfolding insert
insert-HasRoles key e [] h all = (h, tt)
insert-HasRoles key e (p ∷ m) h all = elim (Bool-cases (p.0 == key)) [
  | inl same ↦ rw same (h, all.1)
  | inr other ↦ rw other (all.0, insert-HasRoles key e m h all.1)
]

module _ (rt : Runtime) where
  insert-add_role-HasRoles :
      (key : String) (u : UserInfo) (role : String) (e : RoleEntry) (m : List (String × RoleEntry))
      → All HasRoles m
      → All HasRoles (insert key (add_role rt u role e) m)
  insert-add_role-HasRoles key u role e m h =
      insert-HasRoles key (add_role rt u role e) m (add_role-nonempty rt u role e) h

  add_with_keys-HasRoles :
      (ks : List String) (u : UserInfo) (role : String) (m : RoleMap)
      → All HasRoles m.primary
      → All HasRoles (add_with_keys rt ks u role m).primary
  unfolding add_with_keys
  add_with_keys-HasRoles [] u role m h = h
  add_with_keys-HasRoles (k ∷ ks) u role m h = insert-add_role-HasRoles _ u role _ m.primary h

  add_members-HasRoles :
      (us : List UserInfo) (role : String) (m : RoleMap)
      → All HasRoles m.primary
      → All HasRoles (add_members rt us role m).primary
  unfolding add_members add_member
  add_members-HasRoles [] role m h = h
  add_members-HasRoles (u ∷ us) role m h =
      add_members-HasRoles us role (add_member rt u role m)
        (add_with_keys-HasRoles (member_keys rt u) u role m h)

  build_map-HasRoles : (s : ProjectSettings) → All HasRoles (build_map rt s).primary
  unfolding build_map
  build_map-HasRoles s =
      add_members-HasRoles s.meeting_coordinators _ _
        (add_members-HasRoles s.auditors _ _ (add_members-HasRoles s.writers _ _ tt))

  -- What holds of an added user, given the map of the old snapshot.
  abbrev IsNew : RoleMap → UserChange → Type 0
  IsNew old_map c =
      (find_canon (member_keys rt c.user) old_map.all_keys ≡ none)
      × (c.old_roles ≡ [])
      × (is_nonempty c.new_roles ≡ true)

  changed-added : changed ≡ added → ⊥
  changed-added h = cc

  removed-added : removed ≡ added → ⊥
  removed-added h = cc

  known_or_not : {b : Bool} → b ≡ true → b ≡ false → ⊥
  known_or_not h k = cc

  no-Member : (c : UserChange) → Member c [] → ⊥
  no-Member c mem = mem

  change_from-kind :
      (old_map : RoleMap) (e : RoleEntry) (c : UserChange) (canon : String)
      → Member c (change_from rt old_map e (some canon)).0
      → c.kind ≡ changed
  unfolding change_from
  change_from-kind old_map e c canon mem =
      elim (Bool-cases (roles_equal (entry_or_zero (lookup canon old_map.primary)).roles e.roles)) [
        | inl same ↦ absurd (no-Member c (rw same at mem))
        | inr differ ↦ elim (rw differ at mem) [
          | inl one ↦ ap (λ (x : UserChange). x.kind) one
          | inr nobody ↦ absurd nobody
        ]
      ]

  change_from-IsNew :
      (old_map : RoleMap) (e : RoleEntry) (c : UserChange) (found : Option String)
      → find_canon (member_keys rt e.user) old_map.all_keys ≡ found
      → is_nonempty e.roles ≡ true
      → Member c (change_from rt old_map e found).0
      → c.kind ≡ added
      → IsNew old_map c
  unfolding change_from
  change_from-IsNew old_map e c none missing has (inl same) kind =
      subst (IsNew old_map) (sym same) (missing, refl, has)
  change_from-IsNew old_map e c none missing has (inr nobody) kind = absurd nobody
  change_from-IsNew old_map e c (some canon) found has mem kind =
      absurd (changed-added (sym (change_from-kind old_map e c canon mem) ∙ kind))

  new_entry_change-IsNew :
      (old_map : RoleMap) (key : String) (e : RoleEntry) (c : UserChange)
      → HasRoles (key, e)
      → Member c (new_entry_change rt old_map e).0
      → c.kind ≡ added
      → IsNew old_map c
  unfolding new_entry_change
  new_entry_change-IsNew old_map key e c has mem kind =
      change_from-IsNew old_map e c (find_canon (member_keys rt e.user) old_map.all_keys) refl has
        mem kind

  new_changes-IsNew :
      (old_map : RoleMap) (es : List (String × RoleEntry)) (c : UserChange)
      → All HasRoles es
      → Member c (new_changes rt old_map es).0
      → c.kind ≡ added
      → IsNew old_map c
  unfolding new_changes
  new_changes-IsNew old_map [] c has mem kind = absurd mem
  new_changes-IsNew old_map ((key, e) ∷ es) c has mem kind =
      elim (Member-append (new_entry_change rt old_map e).0 (new_changes rt old_map es).0 c mem) [
        | inl here ↦ new_entry_change-IsNew old_map key e c has.0 here kind
        | inr later ↦ new_changes-IsNew old_map es c has.1 later kind
      ]

  old_entry_change-kind :
      (new_map : RoleMap) (matched : List String) (key : String) (e : RoleEntry) (c : UserChange)
      → Member c (old_entry_change rt new_map matched key e)
      → c.kind ≡ removed
  unfolding old_entry_change
  old_entry_change-kind new_map matched key e c mem = elim (Bool-cases (contains key matched)) [
    | inl met ↦ absurd (no-Member c (rw met at mem))
    | inr unmet ↦ elim (Option-cases (find_canon (member_keys rt e.user) new_map.all_keys)) [
      | inr (canon, found) ↦ absurd (no-Member c (rw (unmet, found) at mem))
      | inl missing ↦
          let gone : UserChange = record {
            user = e.user;
            old_roles = e.roles;
            new_roles = [];
            kind = removed;
          } in
          let here : Member c (gone ∷ []) = rw (unmet, missing) at mem in
          elim here [ inl same ↦ ap (λ (x : UserChange). x.kind) same | inr nobody ↦ absurd nobody ]
    ]
  ]

  old_changes-kind :
      (new_map : RoleMap) (matched : List String) (es : List (String × RoleEntry)) (c : UserChange)
      → Member c (old_changes rt new_map matched es)
      → c.kind ≡ removed
  unfolding old_changes
  old_changes-kind new_map matched [] c mem = absurd mem
  old_changes-kind new_map matched ((key, e) ∷ es) c mem =
      elim (Member-append (old_entry_change rt new_map matched key e)
        (old_changes rt new_map matched es) c mem) [
          | inl here ↦ old_entry_change-kind new_map matched key e c here
          | inr later ↦ old_changes-kind new_map matched es c later
        ]

  -- An added change has no roles before it and at least one after it, and none of its user's keys is a
  -- key of any writer, auditor or meeting coordinator of the old settings.
  pub diff_user_changes-added :
      (old_settings new_settings : ProjectSettings) (c : UserChange)
      → Member c (diff_user_changes rt old_settings new_settings)
      → c.kind ≡ added
      → (c.old_roles ≡ [])
        × (is_nonempty c.new_roles ≡ true)
        × ((u : UserInfo) (k : String)
            → ¬ (
                Member u (members old_settings)
                × Member k (member_keys rt u)
                × Member k (member_keys rt c.user)))
  unfolding diff_user_changes
  diff_user_changes-added old_settings new_settings c mem kind =
      let old_map = build_map rt old_settings in
      let new_map = build_map rt new_settings in
      let fresh = new_changes rt old_map new_map.primary in
      let is_new : IsNew old_map c =
        elim (Member-append fresh.0 (old_changes rt new_map fresh.1 old_map.primary) c mem) [
          | inl here ↦
              new_changes-IsNew old_map new_map.primary c (build_map-HasRoles new_settings) here
                kind
          | inr gone ↦
              absurd (
                removed-added
                  (sym (old_changes-kind new_map fresh.1 old_map.primary c gone) ∙ kind))
        ] in
      (
        is_new.1,
        is_new.2,
        λ u k (told, has, shared).
            known_or_not (build_map-known rt old_settings u k told has)
              (find_canon-none (member_keys rt c.user) old_map.all_keys k is_new.0 shared),
      )
