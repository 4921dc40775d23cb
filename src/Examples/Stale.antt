-- ===== src/Examples/Stale.antt =====
-- A deletion with a stale ETag, at buckets in memory.
use lfx_v2_project_service.Prelude.{String, ◌≡◌, ◌≢◌, refl, false, none, some, arith, eq_iff}
use lfx_v2_project_service.Prelude.Text.{parse_uint}
use lfx_v2_project_service.Exec.{err}
use lfx_v2_project_service.Domain.Error.{Error}
use lfx_v2_project_service.Nats.Memory.{Memory, peek, memory, memory-laws}
use lfx_v2_project_service.Nats.Repository.{World}
use lfx_v2_project_service.Nats.Projects.{slug_key}
use lfx_v2_project_service.Service.Api.{DeleteProjectPayload}
use lfx_v2_project_service.Service.Wiring.{wired}
use lfx_v2_project_service.Service.Projects.Delete.{delete_project}
use lfx_v2_project_service.Service.Projects.Stale.{delete_project-stale_etag}
use lfx_v2_project_service.Examples.Sample.{
  repository, digest, messages, users, runtime, world, zephyr,
}

abbrev stale_deletion : DeleteProjectPayload
stale_deletion = record { x_sync = none; if_match = some "1"; uid = some "u1" }

slug_ne_uid : slug_key "zephyr" ≢ "u1"
slug_ne_uid e = ground (arith, eq_iff "slug/zephyr" "u1")

delete_project-stale_etag_example :
    (e : Error) × (after : World Memory) × (delete_project runtime
        (wired digest repository messages users false)
        stale_deletion
        world
      ≡ (err e, after))
    × ((j : String) → peek after.projects j ≡ peek world.projects j)
    × (after.project_settings ≡ world.project_settings)
    × (after.outbox ≡ world.outbox)
delete_project-stale_etag_example =
    delete_project-stale_etag digest repository messages users peek peek memory-laws memory-laws
      runtime world stale_deletion "u1" "1" zephyr 2 1 refl refl (unfold parse_uint in refl)
      (unfold memory in refl) slug_ne_uid (omega arith) (omega arith)
