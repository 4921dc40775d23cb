-- ===== src/Http/Raised.antt =====
-- Which errors an operation raises: a predicate on errors that holds of every error an action can end
-- with, in any world, and the rules for the parts that the operations are made of.
use lfx_v2_project_service.Prelude.{
  Bool, true, false, ◌&&◌, Option, none, some, List, [], ◌∷◌, if◌then◌else◌,
}
use lfx_v2_project_service.Exec.{
  Result, ok, err, Exec, map_err, pure, raise, guard, change_err, try, is_ok, ◌>>=◌,
}
use lfx_v2_project_service.Domain.Error.{Error, internal, service_unavailable}
use lfx_v2_project_service.Service.Core.{
  wait_all, wait_group, when_ready, service_ready, Ready, ProjectsService,
}

abbrev pub OnError : {A : Type 0} → (Error → Type 0) → Result A → Type 0
OnError P (ok a) = Unit
OnError P (err e) = P e

pub record Raises {W A : Type 0} (P : Error → Type 0) (m : Exec W A) : Type 0 where
  pub raised : (w : W) → OnError P (m w).0

module _ (P : Error → Type 0) where
  pub if-either : (b : Bool) {e f : Error} → P e → P f → P (if b then e else f)
  if-either true p q = p
  if-either false p q = q

  OnError-map_err :
      {A : Type 0} (f : Error → Error) (x : Result A)
      → ((e : Error) → P (f e))
      → OnError P (map_err f x)
  OnError-map_err f (ok a) h = tt
  OnError-map_err f (err e) h = h e

  module _ {W : Type 0} where
    continue-Raises :
        {A C : Type 0} (x : Result A) (w : W) (f : A → Exec W C)
        → OnError P x
        → ((a : A) → Raises P (f a))
        → OnError P (((λ v. (x, v)) >>= f) w).0
    continue-Raises (ok a) w f h k = (k a).raised w
    continue-Raises (err e) w f h k = h

    pub bind-Raises :
        {A C : Type 0} (m : Exec W A) (f : A → Exec W C)
        → Raises P m
        → ((a : A) → Raises P (f a))
        → Raises P (m >>= f)
    bind-Raises m f h k = record { raised = λ w. continue-Raises (m w).0 (m w).1 f (h.raised w) k }

    pub change_err-Raises :
        {A : Type 0} (f : Error → Error) (m : Exec W A)
        → ((e : Error) → P (f e))
        → Raises P (change_err f m)
    change_err-Raises f m h = record { raised = λ w. OnError-map_err f (m w).0 h }

    pub guard-Raises : (b : Bool) (e : Error) → P e → Raises {W = W} P (guard b e)
    guard-Raises true e h = record { raised = λ w. tt }
    guard-Raises false e h = record { raised = λ w. h }

    pub pure-Raises : {A : Type 0} (a : A) → Raises {W = W} P (pure a)
    pure-Raises a = record { raised = λ w. tt }

    wait_all-Raises : (ms : List (Exec W (Unit {0}))) → Raises P (wait_all ms)
    unfolding wait_all
    wait_all-Raises [] = pure-Raises true
    wait_all-Raises (m ∷ ms) =
        bind-Raises (try m) _ (record { raised = λ w. tt })
          (λ first.
            bind-Raises (wait_all ms) _ (wait_all-Raises ms)
              (λ others. pure-Raises (is_ok first && others)))

    pub wait_group-Raises : (ms : List (Exec W (Unit {0}))) → P internal → Raises P (wait_group ms)
    wait_group-Raises ms h =
        bind-Raises (wait_all ms) _ (wait_all-Raises ms) (λ done. guard-Raises done internal h)

    pub leaf : {A : Type 0} (m : Exec W A) → ((w : W) → OnError P (m w).0) → Raises P m
    leaf m h = record { raised = h }

    ready-Raises :
        {A : Type 0} (found : Option (Ready W)) (body : Ready W → Exec W A)
        → P service_unavailable
        → ((r : Ready W) → Raises P (body r))
        → Raises P
            (elim found as (λ k. Exec W A) [ none ↦ raise service_unavailable | some r ↦ body r ])
    ready-Raises none body h k = record { raised = λ w. h }
    ready-Raises (some r) body h k = k r

    pub when_ready-Raises :
        {A : Type 0} (s : ProjectsService W) (body : Ready W → Exec W A)
        → P service_unavailable
        → ((r : Ready W) → Raises P (body r))
        → Raises P (when_ready s body)
    when_ready-Raises s body h k = ready-Raises (service_ready s) body h k
