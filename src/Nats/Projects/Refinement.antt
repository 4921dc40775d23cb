-- ===== src/Nats/Projects/Refinement.antt =====
-- The bucket of projects as a catalogue of projects by UID: what CreateProject, UpdateProjectBase and
-- DeleteProject of internal/infrastructure/nats/repository.go mean, and the states that successful calls
-- of them reach.
use lfx_v2_project_service.Prelude.{
  ℕ, String, ◌≡◌, ◌≢◌, refl, ap, ◌∙◌, inl, inr, Option, none, some, Bool, true, false, arith,
  eq_iff, ◌==◌, if◌then◌else◌, Bool-cases,
}
use lfx_v2_project_service.Exec.{ok, Exec}
use lfx_v2_project_service.Domain.Model.{ProjectBase, ProjectSettings}
use lfx_v2_project_service.Nats.Kv.{Value, Entry, json, plain, done}
use lfx_v2_project_service.Nats.Laws.{entry, KeyValueLaws}
use lfx_v2_project_service.Nats.Repository.{NatsRepository, World}
use lfx_v2_project_service.Nats.Projects.{
  slug_key, create_project, update_project_base, delete_project,
}
use lfx_v2_project_service.Nats.Projects.View.{View, IsConsistent, written, erased}
use lfx_v2_project_service.Nats.Projects.Consistency.{
  create_project-view, delete_project-view, update_project_base-kept, update_project_base-moved,
  create_project-IsConsistent, update_project_base-IsConsistent, delete_project-IsConsistent,
}

-- The projects by their UIDs.
abbrev pub Catalogue : Type 0
Catalogue = String → Option ProjectBase

abbrev project_in : Value ProjectBase → Option ProjectBase
project_in (json p) = some p
project_in (plain s) = none

abbrev project_of : Option (Entry ProjectBase) → Option ProjectBase
project_of none = none
project_of (some e) = project_in e.value

-- The catalogue that a bucket stands for; the slug keys are no part of it.
abbrev pub catalogue : View → Catalogue
catalogue v uid = project_of (v uid)

pub data Command : Type 0 where
  create : ProjectBase → Option ProjectSettings → Command
  update : ProjectBase → (revision : ℕ) → Command
  delete : (uid : String) → (revision : ℕ) → Command

-- What a command does to a catalogue.
abbrev pub meaning : Command → Catalogue → Catalogue
meaning (create b settings) c uid = if b.uid == uid then some b else c uid
meaning (update b revision) c uid = if b.uid == uid then some b else c uid
meaning (delete gone revision) c uid = if gone == uid then none else c uid

catalogue-written :
    (v : View) (b : ProjectBase) (r n : ℕ) (j : String)
    → catalogue v (slug_key b.slug) ≡ none
    → catalogue
        (written b.uid (entry (json b) r) (written (slug_key b.slug) (entry (plain b.uid) n) v))
        j
      ≡ (if b.uid == j then some b else catalogue v j)
catalogue-written v b r n j free = ground (arith, eq_iff (slug_key b.slug) j)

catalogue-erased :
    (v : View) (k j : String) → catalogue (erased k v) j ≡ (if k == j then none else catalogue v j)
catalogue-erased v k j = ground arith

catalogue-erased_slug :
    (v : View) (k j : String) → catalogue v k ≡ none → catalogue (erased k v) j ≡ catalogue v j
catalogue-erased_slug v k j free = ground (arith, eq_iff k j)

none_either : (b : Bool) {x : Option ProjectBase} → x ≡ none → (if b then none else x) ≡ none
none_either true e = refl
none_either false e = e

module _ {B : Type 0 → Type 0} (s : NatsRepository B)
    (peek : B ProjectBase → String → Option (Entry ProjectBase)) where
  abbrev pub run : Command → Exec (World B) (Unit {0})
  run (create b settings) = create_project s b settings
  run (update b revision) = update_project_base s b revision
  run (delete uid revision) = delete_project s uid revision

  -- When a command is made: a new project has a free slug key; a stored one can be read, and takes a
  -- free slug key if it changes its slug.
  abbrev pub IsAdmitted : Command → World B → Type 0
  IsAdmitted (create b settings) w =
      (peek w.projects (slug_key b.slug) ≡ none) × ((t : String) → slug_key t ≢ b.uid)
  IsAdmitted (update b revision) w =
      (old : ProjectBase) × (m : ℕ) × (s.projects.get w.projects b.uid ≡ done (entry (json old) m))
      × ((t : String) → slug_key t ≢ b.uid)
      × (old.slug ≢ b.slug → peek w.projects (slug_key b.slug) ≡ none)
  IsAdmitted (delete uid revision) w =
      (old : ProjectBase) × (m : ℕ) × (s.projects.get w.projects uid ≡ done (entry (json old) m))
      × (slug_key old.slug ≢ uid)

  -- The worlds that successful commands reach, with what the commands mean.
  pub data Reaches : World B → Catalogue → Type 0 where
    start : (w : World B) → IsConsistent (peek w.projects) → Reaches w (catalogue (peek w.projects))
    next :
        {w : World B} {c : Catalogue} (command : Command)
        → Reaches w c
        → IsAdmitted command w
        → (run command w).0 ≡ ok tt
        → Reaches (run command w).1 (meaning command c)

  module _ (laws : KeyValueLaws s.projects peek) where
    command-IsConsistent :
        (command : Command) (w : World B)
        → IsConsistent (peek w.projects)
        → IsAdmitted command w
        → (run command w).0 ≡ ok tt
        → IsConsistent (peek (run command w).1.projects)
    command-IsConsistent (create b settings) w c (free, distinct) h =
        create_project-IsConsistent s peek laws w b settings c free distinct h
    command-IsConsistent (update b revision) w c (old, m, found, distinct, free) h =
        update_project_base-IsConsistent s peek laws w b old revision m found distinct h c free
    command-IsConsistent (delete uid revision) w c (old, m, found, distinct) h =
        delete_project-IsConsistent s peek laws w uid old revision m c found distinct h

    -- The slug key of a stored project holds no project.
    slug_key-none :
        (w : World B) (uid : String) (p : ProjectBase) (m : ℕ)
        → IsConsistent (peek w.projects)
        → s.projects.get w.projects uid ≡ done (entry (json p) m)
        → catalogue (peek w.projects) (slug_key p.slug) ≡ none
    slug_key-none w uid p m c found =
        let (n, _, names) = c uid p m (laws.get_done w.projects uid (entry (json p) m) found) in
        ap project_of names

    command-meaning :
        (command : Command) (w : World B)
        → IsConsistent (peek w.projects)
        → IsAdmitted command w
        → (run command w).0 ≡ ok tt
        → (j : String)
        → catalogue (peek (run command w).1.projects) j
          ≡ meaning command (catalogue (peek w.projects)) j
    command-meaning (create b settings) w c (free, distinct) h j =
        let (r, n, view) = create_project-view s peek laws w b settings (distinct b.slug) h in
        ap project_of (view j) ∙ catalogue-written (peek w.projects) b r n j (ap project_of free)
    command-meaning (update b revision) w c (old, m, found, distinct, free) h j =
        elim (Bool-cases (old.slug == b.slug)) [
          | inl same ↦
              let (r, view) =
                update_project_base-kept s peek laws w b old revision m found distinct h same in
              ap project_of (view j) ∙ ground arith
          | inr moved ↦
              let gone = slug_key-none w b.uid old m c found in
              let (r, n, view) =
                update_project_base-moved s peek laws w b old revision m found distinct h moved in
              ap project_of (view j)
              ∙ catalogue-written (erased (slug_key old.slug) (peek w.projects)) b r n j (
                  catalogue-erased_slug (peek w.projects) (slug_key old.slug) (slug_key b.slug) gone
                  ∙ ap project_of (free (λ e. ground (arith, eq_iff old.slug b.slug))))
              ∙ ap (λ x. if b.uid == j then some b else x)
                  (catalogue-erased_slug (peek w.projects) (slug_key old.slug) j gone)
        ]
    command-meaning (delete uid revision) w c (old, m, found, distinct) h j =
        let gone = slug_key-none w uid old m c found in
        ap project_of (delete_project-view s peek laws w uid old revision m found distinct h j)
        ∙ catalogue-erased_slug (erased uid (peek w.projects)) (slug_key old.slug) j (
            catalogue-erased (peek w.projects) uid (slug_key old.slug)
            ∙ none_either (uid == slug_key old.slug) gone)
        ∙ catalogue-erased (peek w.projects) uid j

    meaning-ext :
        (command : Command) (c d : Catalogue)
        → ((j : String) → c j ≡ d j)
        → (j : String) → meaning command c j ≡ meaning command d j
    meaning-ext (create b settings) c d same j = ap (λ x. if b.uid == j then some b else x) (same j)
    meaning-ext (update b revision) c d same j = ap (λ x. if b.uid == j then some b else x) (same j)
    meaning-ext (delete uid revision) c d same j = ap (λ x. if uid == j then none else x) (same j)

    -- After any number of successful CreateProject, UpdateProjectBase and DeleteProject, made when they
    -- are admitted and starting from a consistent bucket, the bucket of projects is consistent and
    -- holds under every key the project that the commands have put there, or none.
    pub Reaches-refines :
        (w : World B) (c : Catalogue)
        → Reaches w c
        → IsConsistent (peek w.projects)
          × ((uid : String) → catalogue (peek w.projects) uid ≡ c uid)
    Reaches-refines w c (start _ consistent) = (consistent, λ uid. refl)
    Reaches-refines w c (next {w = v} {c = d} command reached admitted h) =
        let (consistent, same) = Reaches-refines v d reached in
        (
          command-IsConsistent command v consistent admitted h,
          λ uid.
              command-meaning command v consistent admitted h uid
              ∙ meaning-ext command (catalogue (peek v.projects)) d same uid,
        )
