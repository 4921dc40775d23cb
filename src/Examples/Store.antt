-- ===== src/Examples/Store.antt =====
-- The theorems about the repository, at buckets in memory.
use lfx_v2_project_service.Prelude.{ℕ, String, ◌≡◌, ◌≢◌, refl, ◌⊎◌, none, some, arith, eq_iff}
use lfx_v2_project_service.Exec.{ok, err}
use lfx_v2_project_service.Domain.Error.{Error, revision_mismatch}
use lfx_v2_project_service.Nats.Kv.{json, plain, done}
use lfx_v2_project_service.Nats.Laws.{entry}
use lfx_v2_project_service.Nats.Memory.{Memory, peek, memory, memory-laws}
use lfx_v2_project_service.Nats.Repository.{World}
use lfx_v2_project_service.Nats.Projects.{
  slug_key, create_project, get_project_base, get_project_uid_from_slug, update_project_base,
  delete_project,
}
use lfx_v2_project_service.Nats.Projects.Writes.{
  update_project_base-done, update_project_base-stale_slug,
}
use lfx_v2_project_service.Nats.Projects.Deletion.{delete_project-done}
use lfx_v2_project_service.Examples.Sample.{
  repository, world, empty_world, zephyr, renamed, zephyr_settings,
}

run : Unit {0}
unfolding memory create_project get_project_base get_project_uid_from_slug update_project_base
    delete_project
run = tt

-- A creation, and what can be read after it; a stale deletion, and one at
-- revision 0, which the stored revision does not stop.
project_tests :
    (get_project_base repository "u1"
        (create_project repository zephyr (some zephyr_settings) empty_world).1
      ≡ ok zephyr)
    × (get_project_uid_from_slug repository "zephyr"
          (create_project repository zephyr (some zephyr_settings) empty_world).1
        ≡ ok "u1")
    × ((delete_project repository "u1" 7 world).0 ≡ err revision_mismatch)
    × ((delete_project repository "u1" 0 world).0 ≡ ok tt)
unfolding run
project_tests = (refl, refl, refl, refl)

stored_zephyr : repository.projects.get world.projects "u1" ≡ done (entry (json zephyr) 2)
unfolding memory
stored_zephyr = refl

slug_ne_uid : slug_key "zephyr" ≢ "u1"
slug_ne_uid e = ground (arith, eq_iff "slug/zephyr" "u1")

slug_ne_uid_after : slug_key "zephyr-rtos" ≢ "u1"
slug_ne_uid_after e = ground (arith, eq_iff "slug/zephyr-rtos" "u1")

delete_project-done_example :
    (◌≡◌ {A = ℕ} 2 2 ⊎ ◌≡◌ {A = ℕ} 2 0)
    × (peek (delete_project repository "u1" 2 world).1.projects "u1" ≡ none)
    × (peek (delete_project repository "u1" 2 world).1.projects (slug_key "zephyr") ≡ none)
    × (peek (delete_project repository "u1" 2 world).1.project_settings "u1" ≡ none)
delete_project-done_example =
    delete_project-done repository peek peek memory-laws memory-laws zephyr "u1" 2 2 world
      stored_zephyr slug_ne_uid (unfold run in refl)

abbrev after_rename : World Memory
after_rename = (update_project_base repository renamed 2 world).1

abbrev after_stale : World Memory
after_stale = (update_project_base repository renamed 1 world).1

update_project_base-done_example :
    (r : ℕ) × (◌≡◌ {A = ℕ} 2 2)
    × (peek after_rename.projects "u1" ≡ some (entry (json renamed) r))
    × (◌≢◌ {A = String} "zephyr" "zephyr-rtos"
        → peek after_rename.projects (slug_key "zephyr") ≡ none)
    × (◌≢◌ {A = String} "zephyr" "zephyr-rtos"
        → (n : ℕ) × (peek after_rename.projects (slug_key "zephyr-rtos")
            ≡ some (entry (plain "u1") n)))
    × (◌≡◌ {A = String} "zephyr" "zephyr-rtos"
        → peek after_rename.projects (slug_key "zephyr") ≡ peek world.projects (slug_key "zephyr"))
update_project_base-done_example =
    update_project_base-done repository peek peek memory-laws memory-laws renamed zephyr 2 2 world
      stored_zephyr slug_ne_uid slug_ne_uid_after (unfold run in refl)

other_slug : ◌≢◌ {A = String} "zephyr" "zephyr-rtos"
other_slug e = ground (arith, eq_iff "zephyr" "zephyr-rtos")

update_project_base-stale_slug_example :
    (e : Error) × ((update_project_base repository renamed 1 world).0 ≡ err e)
    × (peek after_stale.projects (slug_key "zephyr") ≡ none)
update_project_base-stale_slug_example =
    update_project_base-stale_slug repository peek peek memory-laws memory-laws renamed zephyr 2 1
      world stored_zephyr slug_ne_uid slug_ne_uid_after (omega arith) other_slug
      (unfold memory in refl)
