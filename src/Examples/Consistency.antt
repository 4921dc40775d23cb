-- ===== src/Examples/Consistency.antt =====
-- The theorems about the consistency of the bucket of projects, at buckets in memory.
use lfx_v2_project_service.Prelude.{String, ◌≡◌, ◌≢◌, refl, sym, ap, ◌∙◌, true, false, some, arith}
use text.Mathlib.Text.{starts_with}
use text.Mathlib.TextPositions.{starts_with-append}
use lfx_v2_project_service.Nats.Repository.{World}
use lfx_v2_project_service.Nats.Memory.{Memory, peek, memory, memory-laws}
use lfx_v2_project_service.Nats.Projects.{
  slug_key, create_project, get_project_base, update_project_base, delete_project,
}
use lfx_v2_project_service.Nats.Projects.View.{IsConsistent, slug_unique}
use lfx_v2_project_service.Nats.Projects.Consistency.{
  create_project-IsConsistent, update_project_base-IsConsistent, delete_project-IsConsistent,
}
use lfx_v2_project_service.Nats.Projects.Refinement.{
  catalogue, create, delete, meaning, Reaches, start, next, Reaches-refines,
}
use lfx_v2_project_service.Examples.Sample.{
  repository, world, empty_world, zephyr, renamed, zephyr_settings,
}

run : Unit {0}
unfolding memory create_project get_project_base update_project_base delete_project
run = tt

no_slug_key : (t : String) → slug_key t ≢ "u1"
no_slug_key t e =
    let other : false ≡ true =
      sym (ap (λ s. starts_with s "slug/") e) ∙ starts_with-append "slug/" t in
    cc

empty-IsConsistent : IsConsistent (peek empty_world.projects)
unfolding peek
empty-IsConsistent key base r h = ground arith

create_project-IsConsistent_example :
    IsConsistent
      (peek (create_project repository zephyr (some zephyr_settings) empty_world).1.projects)
create_project-IsConsistent_example =
    create_project-IsConsistent repository peek memory-laws empty_world zephyr
      (some zephyr_settings) empty-IsConsistent (unfold memory in refl) no_slug_key
      (unfold run in refl)

world-IsConsistent : IsConsistent (peek world.projects)
unfolding run
world-IsConsistent = create_project-IsConsistent_example

update_project_base-IsConsistent_example :
    IsConsistent (peek (update_project_base repository renamed 2 world).1.projects)
update_project_base-IsConsistent_example =
    update_project_base-IsConsistent repository peek memory-laws world renamed zephyr 2 2
      (unfold memory in refl) no_slug_key (unfold run in refl) world-IsConsistent
      (λ moved. unfold memory in refl)

delete_project-IsConsistent_example :
    IsConsistent (peek (delete_project repository "u1" 2 world).1.projects)
delete_project-IsConsistent_example =
    delete_project-IsConsistent repository peek memory-laws world "u1" zephyr 2 2 world-IsConsistent
      (unfold memory in refl) (no_slug_key "zephyr") (unfold run in refl)

slug_unique_example : ◌≡◌ {A = String} "u1" "u1"
slug_unique_example =
    slug_unique (peek world.projects) "u1" "u1" zephyr zephyr 2 2 world-IsConsistent
      (unfold memory in refl) (unfold memory in refl) refl

-- Zephyr is created and deleted again.
abbrev created : World Memory
created = (create_project repository zephyr (some zephyr_settings) empty_world).1

after_deletion : Reaches repository peek (delete_project repository "u1" 2 created).1 (
    meaning
      (delete "u1" 2)
      (meaning (create zephyr (some zephyr_settings)) (catalogue (peek empty_world.projects))))
after_deletion =
    next (delete "u1" 2)
      (next (create zephyr (some zephyr_settings)) (start empty_world empty-IsConsistent)
        (unfold memory in refl, no_slug_key) (unfold run in refl))
      (zephyr, 2, unfold run in refl, no_slug_key "zephyr") (unfold run in refl)

Reaches-refines_example :
    IsConsistent (peek (delete_project repository "u1" 2 created).1.projects)
    × ((uid : String)
        → catalogue (peek (delete_project repository "u1" 2 created).1.projects) uid
          ≡ meaning
              (delete "u1" 2)
              (meaning
                (create zephyr (some zephyr_settings))
                (catalogue (peek empty_world.projects)))
              uid)
Reaches-refines_example =
    Reaches-refines repository peek memory-laws (delete_project repository "u1" 2 created).1
      (meaning (delete "u1" 2)
        (meaning (create zephyr (some zephyr_settings)) (catalogue (peek empty_world.projects))))
      after_deletion
