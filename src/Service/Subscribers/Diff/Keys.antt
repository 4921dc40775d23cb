-- ===== src/Service/Subscribers/Diff/Keys.antt =====
-- The identity keys in diffUserChanges of internal/service/project_subscriber.go: buildMap knows every
-- key of every user it was given.
use lfx_v2_project_service.Prelude.{
  String, Bool, true, false, ◌||◌, inl, inr, Option, none, some, List, [], ◌∷◌, ◌++◌, ◌==◌, ◌≡◌, ap,
  ◌∙◌, arith, eq_iff, Option-cases, Member, Member-append,
}
use mathlib.Core.Path.{subst}
use lfx_v2_project_service.Prelude.Assoc.{lookup, insert, lookup-insert}
use lfx_v2_project_service.Domain.Model.{UserInfo, ProjectSettings}
use lfx_v2_project_service.Service.Runtime.{Runtime}
use lfx_v2_project_service.Service.Subscribers.Diff.{
  RoleMap, find_canon, set_keys, member_keys, add_with_keys, add_member, add_members, build_map,
}

abbrev is_some : Option String → Bool
is_some none = false
is_some (some x) = true

-- Whether a map of keys has a key.
abbrev pub is_known : String → List (String × String) → Bool
is_known k m = is_some (lookup k m)

-- The users of the three slices, in the order in which buildMap takes them.
abbrev pub members : ProjectSettings → List UserInfo
members s = s.writers ++ s.auditors ++ s.meeting_coordinators

pub find_canon-none :
    (ks : List String) (m : List (String × String)) (k : String)
    → find_canon ks m ≡ none
    → Member k ks
    → is_known k m ≡ false
unfolding find_canon
find_canon-none [] m k h mem = absurd mem
find_canon-none (j ∷ ks) m k h mem = elim (Option-cases (lookup j m)) [
  | inr (pk, found) ↦ absurd (ground arith)
  | inl missing ↦ elim mem [
    | inl e ↦ ap (λ x. is_known x m) e ∙ ap is_some missing
    | inr later ↦ find_canon-none ks m k (ground arith) later
  ]
]

insert-is_known :
    (m : List (String × String)) (j v k : String)
    → is_known k (insert j v m) ≡ ((j == k) || is_known k m)
insert-is_known m j v k = ground (arith, lookup-insert m v j k)

set_keys-kept :
    (ks : List String) (canon : String) (m : List (String × String)) (k : String)
    → is_known k m ≡ true
    → is_known k (set_keys ks canon m) ≡ true
unfolding set_keys
set_keys-kept [] canon m k h = h
set_keys-kept (j ∷ ks) canon m k h =
    set_keys-kept ks canon (insert j canon m) k (ground (arith, insert-is_known m j canon k))

set_keys-known :
    (ks : List String) (canon : String) (m : List (String × String)) (k : String)
    → Member k ks
    → is_known k (set_keys ks canon m) ≡ true
unfolding set_keys
set_keys-known [] canon m k mem = absurd mem
set_keys-known (j ∷ ks) canon m k (inl e) =
    set_keys-kept ks canon (insert j canon m) k
      (ground (arith, insert-is_known m j canon k, eq_iff j k))
set_keys-known (j ∷ ks) canon m k (inr later) = set_keys-known ks canon (insert j canon m) k later

add_with_keys-kept :
    (rt : Runtime) (ks : List String) (u : UserInfo) (role : String) (m : RoleMap) (k : String)
    → is_known k m.all_keys ≡ true
    → is_known k (add_with_keys rt ks u role m).all_keys ≡ true
unfolding add_with_keys
add_with_keys-kept rt [] u role m k h = h
add_with_keys-kept rt (j ∷ ks) u role m k h = set_keys-kept (j ∷ ks) _ m.all_keys k h

add_with_keys-known :
    (rt : Runtime) (ks : List String) (u : UserInfo) (role : String) (m : RoleMap) (k : String)
    → Member k ks
    → is_known k (add_with_keys rt ks u role m).all_keys ≡ true
unfolding add_with_keys
add_with_keys-known rt [] u role m k mem = absurd mem
add_with_keys-known rt (j ∷ ks) u role m k mem = set_keys-known (j ∷ ks) _ m.all_keys k mem

module _ (rt : Runtime) where
  add_members-kept :
      (us : List UserInfo) (role : String) (m : RoleMap) (k : String)
      → is_known k m.all_keys ≡ true
      → is_known k (add_members rt us role m).all_keys ≡ true
  unfolding add_members add_member
  add_members-kept [] role m k h = h
  add_members-kept (u ∷ us) role m k h =
      add_members-kept us role (add_member rt u role m) k
        (add_with_keys-kept rt (member_keys rt u) u role m k h)

  add_members-known :
      (us : List UserInfo) (role : String) (m : RoleMap) (u : UserInfo) (k : String)
      → Member u us
      → Member k (member_keys rt u)
      → is_known k (add_members rt us role m).all_keys ≡ true
  unfolding add_members add_member
  add_members-known [] role m u k mem has = absurd mem
  add_members-known (v ∷ us) role m u k (inl e) has =
      add_members-kept us role (add_member rt v role m) k (
        add_with_keys-known rt (member_keys rt v) v role m k
          (subst (λ x. Member k (member_keys rt x)) e has))
  add_members-known (v ∷ us) role m u k (inr later) has =
      add_members-known us role (add_member rt v role m) u k later has

  -- The map of a snapshot knows every key of every user in it.
  pub build_map-known :
      (s : ProjectSettings) (u : UserInfo) (k : String)
      → Member u (members s)
      → Member k (member_keys rt u)
      → is_known k (build_map rt s).all_keys ≡ true
  unfolding build_map
  build_map-known s u k mem has =
      elim (Member-append (s.writers ++ s.auditors) s.meeting_coordinators u mem) [
        | inr third ↦ add_members-known s.meeting_coordinators _ _ u k third has
        | inl early ↦
            add_members-kept s.meeting_coordinators _ _ k
              (elim (Member-append s.writers s.auditors u early) [
                | inr second ↦ add_members-known s.auditors _ _ u k second has
                | inl first ↦
                    add_members-kept s.auditors _ _ k
                      (add_members-known s.writers _ _ u k first has)
              ])
      ]
