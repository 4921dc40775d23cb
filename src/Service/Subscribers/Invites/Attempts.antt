-- ===== src/Service/Subscribers/Invites/Attempts.antt =====
-- The retries of promoteInvitedUserInProjectSettings in internal/service/project_subscriber.go.
use lfx_v2_project_service.Prelude.{
  ℕ, zero, suc, ◌+◌, ◌≤◌, String, Bool, nat_eq, List, [], ◌∷◌, arith,
}
use lfx_v2_project_service.Exec.{Result, ok, err, Exec}
use lfx_v2_project_service.Domain.Model.{ProjectSettings}
use lfx_v2_project_service.Service.Core.{Ready}
use lfx_v2_project_service.Service.Runtime.{Runtime}
use lfx_v2_project_service.Service.Trace.{Call, saved, sent, Traced, traced}
use lfx_v2_project_service.Service.Subscribers.Roles.{InviteRoles}
use lfx_v2_project_service.Service.Subscribers.Invites.{
  promote_settings, attempt, promote_attempts, after_update,
  promote_invited_user_in_project_settings,
}

-- The number of writes of settings in a record of calls.
abbrev pub saves : List Call → ℕ
saves [] = 0
saves (saved s ∷ calls) = suc (saves calls)
saves (sent m ∷ calls) = saves calls

module _ (rt : Runtime) (levels : InviteRoles) {W : Type 0} (r : Ready W) where
  after_update-saves :
      (n : ℕ) (project_uid : String) (p : ProjectSettings) (is_last : Bool)
      (again : Exec (Traced W) (Unit {0}))
      → ((s : Traced W) → saves (again s).1.1 ≤ saves s.1 + n)
      → (done : Result (Unit {0})) (s : Traced W)
      → saves (after_update rt levels (traced r) project_uid p is_last again done s).1.1
        ≤ saves s.1 + n
  unfolding after_update traced
  after_update-saves n project_uid p is_last again h (ok _) s = omega arith
  after_update-saves n project_uid p is_last again h (err e) s = ground (arith, h s)

  attempt-saves :
      (n : ℕ) (project_uid email username role : String) (is_last : Bool)
      (again : Exec (Traced W) (Unit {0}))
      → ((s : Traced W) → saves (again s).1.1 ≤ saves s.1 + n)
      → (found : Result (ProjectSettings × ℕ)) (s : Traced W)
      → saves
          (attempt rt levels (traced r) project_uid email username role is_last again found s).1.1
        ≤ suc (saves s.1 + n)
  unfolding attempt traced
  attempt-saves n project_uid email username role is_last again h (err e) s = omega arith
  attempt-saves n project_uid email username role is_last again h (ok stored) (w, calls) =
      let p = promote_settings rt levels email username role stored.0 in
      let next = r.projects.update_project_settings p.0 stored.1 w in
      ground (
        arith,
        after_update-saves n project_uid p.0 is_last again h next.0 (next.1, saved p.0 ∷ calls),
      )

  promote_attempts-saves :
      (n : ℕ) (project_uid email username role : String) (s : Traced W)
      → saves (promote_attempts rt levels (traced r) n project_uid email username role s).1.1
        ≤ saves s.1 + n
  unfolding promote_attempts traced
  promote_attempts-saves zero project_uid email username role s = omega arith
  promote_attempts-saves (suc n) project_uid email username role s =
      let h =
        attempt-saves n project_uid email username role (nat_eq n 0)
          (promote_attempts rt levels (traced r) n project_uid email username role)
          (promote_attempts-saves n project_uid email username role)
          (r.projects.get_project_settings_with_revision project_uid s.0) s in
      omega arith

  -- Promoting a user in the settings of a project asks the repository at most three times to write
  -- them, whatever the repository answers.
  pub promote_invited-saves :
      (project_uid email username role : String) (s : Traced W)
      → saves
          (promote_invited_user_in_project_settings rt levels
            (traced r)
            project_uid
            email
            username
            role
            s).1.1
        ≤ saves s.1 + 3
  unfolding promote_invited_user_in_project_settings
  promote_invited-saves = promote_attempts-saves 3
