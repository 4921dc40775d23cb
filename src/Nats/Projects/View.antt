-- ===== src/Nats/Projects/View.antt =====
-- The bucket of projects as a map: what is stored under each key. It is consistent if every record
-- stands under its own UID and the key of its slug names it.
use lfx_v2_project_service.Prelude.{
  ℕ, String, ◌≡◌, ◌≢◌, sym, ap, ◌∙◌, inl, inr, Option, none, some, arith, eq_iff, ◌==◌,
  if◌then◌else◌, Bool-cases,
}
use lfx_v2_project_service.Domain.Model.{ProjectBase}
use lfx_v2_project_service.Nats.Kv.{Entry, json, plain}
use lfx_v2_project_service.Nats.Laws.{entry}
use lfx_v2_project_service.Nats.Projects.{slug_key}

-- What is stored under each key.
abbrev pub View : Type 0
View = String → Option (Entry ProjectBase)

abbrev pub IsConsistent : View → Type 0
IsConsistent v =
    (key : String) (base : ProjectBase) (r : ℕ)
    → v key ≡ some (entry (json base) r)
    → (n : ℕ) × (base.uid ≡ key) × (v (slug_key base.slug) ≡ some (entry (plain key) n))

-- The view after an entry has been written, and after one has been erased.
abbrev pub written : String → Entry ProjectBase → View → View
written k e v j = if k == j then some e else v j

abbrev pub erased : String → View → View
erased k v j = if k == j then none else v j

json-injective :
    {p q : ProjectBase} {r n : ℕ}
    → ◌≡◌ {A = Option (Entry ProjectBase)} (some (entry (json p) r)) (some (entry (json q) n))
    → p ≡ q
json-injective h = cc

plain-injective :
    {p q : String} {r n : ℕ}
    → ◌≡◌ {A = Option (Entry ProjectBase)} (some (entry (plain p) r)) (some (entry (plain q) n))
    → p ≡ q
plain-injective h = cc

plain-json :
    {p : String} {q : ProjectBase} {r n : ℕ}
    → ◌≢◌ {A = Option (Entry ProjectBase)} (some (entry (plain p) r)) (some (entry (json q) n))
plain-json h = cc

-- In a consistent bucket two stored projects with the same slug stand under the same key.
pub slug_unique :
    (v : View) (k j : String) (p q : ProjectBase) (r n : ℕ)
    → IsConsistent v
    → v k ≡ some (entry (json p) r)
    → v j ≡ some (entry (json q) n)
    → p.slug ≡ q.slug
    → k ≡ j
slug_unique v k j p q r n c hp hq same =
    let (a, _, one) = c k p r hp in
    let (b, _, two) = c j q n hq in plain-injective (sym one ∙ ap (λ s. v (slug_key s)) same ∙ two)

pub written-IsConsistent :
    (v : View) (b : ProjectBase) (r n : ℕ)
    → IsConsistent v
    → v (slug_key b.slug) ≡ none
    → ((s : String) → slug_key s ≢ b.uid)
    → IsConsistent
        (written b.uid (entry (json b) r) (written (slug_key b.slug) (entry (plain b.uid) n) v))
written-IsConsistent v b r n c free distinct key base m h = elim (Bool-cases (b.uid == key)) [
  | inl here ↦
      let same : b ≡ base = json-injective {r = r} {n = m} (ground arith) in
      (
        n,
        ground (arith, eq_iff b.uid key),
        ground (
          arith,
          eq_iff b.uid key,
          eq_iff b.uid (slug_key base.slug),
          distinct base.slug,
          eq_iff (slug_key b.slug) (slug_key base.slug),
        ),
      )
  | inr there ↦ elim (Bool-cases (slug_key b.slug == key)) [
    | inl slug ↦ absurd (ground arith)
    | inr other ↦
        let (k, named, names) = c key base m (ground arith) in
        (
          k,
          named,
          ground (
            arith,
            eq_iff b.uid (slug_key base.slug),
            distinct base.slug,
            eq_iff (slug_key b.slug) (slug_key base.slug),
          ),
        )
  ]
]

pub erased-IsConsistent :
    (v : View) (uid : String) (p : ProjectBase) (r : ℕ)
    → IsConsistent v
    → v uid ≡ some (entry (json p) r)
    → IsConsistent (erased (slug_key p.slug) (erased uid v))
erased-IsConsistent v uid p r c found key base m h =
    let kept : v key ≡ some (entry (json base) m) = ground arith in
    let (k, named, names) = c key base m kept in
    let (n, _, held) = c uid p r found in
    elim (Bool-cases (slug_key p.slug == slug_key base.slug)) [
      | inl same ↦
          let clash : uid ≡ key =
            plain-injective {r = n} {n = k}
              (ground (arith, eq_iff (slug_key p.slug) (slug_key base.slug))) in
          absurd (ground (arith, eq_iff uid key))
      | inr other ↦ elim (Bool-cases (uid == slug_key base.slug)) [
        | inl clash ↦ absurd (
            plain-json {p = key} {q = p} {r = k} {n = r}
              (ground (arith, eq_iff uid (slug_key base.slug))))
        | inr apart ↦ (k, named, ground arith)
      ]
    ]

pub IsConsistent-ext : (v u : View) → ((j : String) → u j ≡ v j) → IsConsistent v → IsConsistent u
IsConsistent-ext v u same c key base r h =
    let (n, named, names) = c key base r (sym (same key) ∙ h) in
    (n, named, same (slug_key base.slug) ∙ names)

-- A record is replaced: its slug is kept, or a free one is taken.
pub replaced-IsConsistent :
    (v : View) (old b : ProjectBase) (r n m : ℕ)
    → IsConsistent v
    → v b.uid ≡ some (entry (json old) m)
    → ((s : String) → slug_key s ≢ b.uid)
    → (old.slug ≢ b.slug → v (slug_key b.slug) ≡ none)
    → IsConsistent (
        written b.uid
          (entry (json b) r)
          (written (slug_key b.slug) (entry (plain b.uid) n) (erased (slug_key old.slug) v)))
replaced-IsConsistent v old b r n m c found distinct free =
    let u = erased (slug_key old.slug) (erased b.uid v) in
    IsConsistent-ext
      (written b.uid (entry (json b) r) (written (slug_key b.slug) (entry (plain b.uid) n) u))
      (written b.uid (entry (json b) r)
        (written (slug_key b.slug) (entry (plain b.uid) n) (erased (slug_key old.slug) v)))
      (λ j. ground arith)
      (written-IsConsistent u b r n (erased-IsConsistent v b.uid old m c found)
        (elim (Bool-cases (old.slug == b.slug)) [
          | inl same ↦
              ground (arith, eq_iff old.slug b.slug, eq_iff (slug_key old.slug) (slug_key b.slug))
          | inr moved ↦
              let none_there = free (λ e. ground (arith, eq_iff old.slug b.slug)) in ground arith
        ])
        distinct)
