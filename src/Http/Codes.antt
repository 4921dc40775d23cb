-- ===== src/Http/Codes.antt =====
-- The statuses with which the endpoints of cmd/project-api may refuse a request, as
-- api/project/v1/design/project.go declares them.
use lfx_v2_project_service.Prelude.{
  ℕ, Bool, true, false, ◌||◌, Option, none, some, List, [], ◌∷◌, nat_eq, ◌≡◌, arith,
}
use lfx_v2_project_service.Exec.{Result, ok, err}
use lfx_v2_project_service.Domain.Error.{Error}
use lfx_v2_project_service.Http.Raised.{OnError}
use lfx_v2_project_service.Http.Errors.{
  ApiError, bad_request_error, not_found_error, conflict_error, internal_server_error,
  service_unavailable_error, other_error, Reply, success, failure, nothing, failed, reply,
  handle_error,
}

-- The status that goes with an error of the API; an error of another type has none.
abbrev pub status : ApiError → Option ℕ
status (bad_request_error code message) = some 400
status (not_found_error code message) = some 404
status (conflict_error code message) = some 409
status (internal_server_error code message) = some 500
status (service_unavailable_error code message) = some 503
status (other_error e) = none

abbrev is_in : List ℕ → ℕ → Bool
is_in [] n = false
is_in (m ∷ ms) n = nat_eq m n || is_in ms n

abbrev has_status : List ℕ → Option ApiError → Bool
has_status codes none = false
has_status codes (some e) = elim (status e) [ none ↦ false | some n ↦ is_in codes n ]

-- A reply is a success, or an error with one of the statuses.
abbrev pub IsDeclared : {A : Type 0} → List ℕ → Reply A → Type 0
IsDeclared codes (success a) = Unit
IsDeclared codes (failure e) = has_status codes (some e) ≡ true
IsDeclared codes nothing = ⊥

abbrev pub Has : List ℕ → Error → Type 0
Has codes e = has_status codes (handle_error e) ≡ true

pub failed-IsDeclared :
    (A : Type 0) (codes : List ℕ) (e : Option ApiError)
    → has_status codes e ≡ true
    → IsDeclared {A = A} codes (failed e)
failed-IsDeclared A codes none h = absurd (ground arith)
failed-IsDeclared A codes (some e) h = h

pub reply-IsDeclared :
    {A C : Type 0} (codes : List ℕ) (f : A → C) (x : Result A)
    → OnError (Has codes) x
    → IsDeclared codes (reply f x)
unfolding reply
reply-IsDeclared codes f (ok a) h = tt
reply-IsDeclared codes f (err e) h = failed-IsDeclared _ codes (handle_error e) h

abbrev pub create_codes : List ℕ
create_codes = 400 ∷ 409 ∷ 500 ∷ 503 ∷ []

abbrev pub read_codes : List ℕ
read_codes = 404 ∷ 500 ∷ 503 ∷ []

abbrev pub write_codes : List ℕ
write_codes = 400 ∷ 404 ∷ 409 ∷ 500 ∷ 503 ∷ []
