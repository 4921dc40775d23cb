-- ===== src/Http/Authentication.antt =====
-- ParsePrincipal of internal/infrastructure/auth/jwt.go, and the identities that
-- internal/infrastructure/middleware puts into the context of a request. The validator of tokens is a
-- library's: it answers with claims, with the text of an error, or with a value of another type.
pub mod Cuts
pub mod Redaction
use Prim.Native.Char.{code}
use Prim.Native.String.{[], ◌∷◌}
use lfx_v2_project_service.Prelude.{
  ℕ, zero, suc, ◌+◌, String, ◌≡◌, refl, Bool, true, false, Option, none, some, List, ◌==◌, nat_eq,
  if◌then◌else◌,
}
use lfx_v2_project_service.Prelude.Text.{has_prefix, trim_prefix}
use lfx_v2_project_service.Prelude.Assoc.{Pair, lookup, insert}

pub record HeimdallClaims : Type 0 where
  pub principal : String
  pub email : String

-- HeimdallClaims.Validate: whether the claims are accepted
unfoldable pub validate_claims : HeimdallClaims → Bool
validate_claims c = if c.principal == "" then false else true

-- strings.Index(s, ":")
unfoldable pub colon_index : String → Option ℕ
colon_index [] = none
colon_index (c ∷ s) =
    let later : Option ℕ = elim (colon_index s) [ none ↦ none | some i ↦ some (suc i) ] in
    if nat_eq (code c) 58 then some 0 else later

-- s[n:], with `none` for the panic when n is out of range
unfoldable pub slice_from : ℕ → String → Option String
slice_from zero s = some s
slice_from (suc n) [] = none
slice_from (suc n) (c ∷ s) = slice_from n s

-- s[:n], for an n in range
unfoldable pub slice_to : ℕ → String → String
slice_to zero s = []
slice_to (suc n) [] = []
slice_to (suc n) (c ∷ s) = c ∷ slice_to n s

-- strings.Replace(s, part, "", 1), for a nonempty part
unfoldable pub remove_first : (part : String) → String → String
unfolding has_prefix trim_prefix
remove_first part [] = []
remove_first part (c ∷ s) =
    let rest = remove_first part s in
    if has_prefix (c ∷ s) part then trim_prefix (c ∷ s) part else c ∷ rest

-- The error's text up to its second colon; `none` is a panic.
unfoldable pub cut_second : (first_colon : ℕ) → String → Option String
unfolding colon_index slice_from slice_to
cut_second first_colon s = elim (slice_from (first_colon + 1) s) [
  | none ↦ none
  | some rest ↦ elim (colon_index rest) [
    | none ↦ some s
    | some second_colon ↦ some (slice_to (first_colon + second_colon + 1) s)
  ]
]

abbrev pub is_empty : Option String → Bool
is_empty none = true
is_empty (some []) = true
is_empty (some (c ∷ s)) = false

unfoldable pub redact : String → Option String
unfolding cut_second remove_first
redact err_string = elim (colon_index err_string) [
  | none ↦ some err_string
  | some first_colon ↦
      if is_empty (slice_from (first_colon + 1) err_string)
      then some err_string
      else cut_second first_colon (remove_first ": go-jose/go-jose/jwt" err_string)
]

pub data Validation : Type 0 where
  invalid : (err_string : String) → Validation
  other_claims : Validation
  valid : HeimdallClaims → Validation

pub data Principal : Type 0 where
  principal_of : String → Principal
  rejected : (message : String) → Principal
  panicked : Principal

unfoldable pub principal_from : Validation → Principal
unfolding redact
principal_from (valid claims) = principal_of claims.principal
principal_from other_claims = rejected "failed to get custom authorization claims"
principal_from (invalid err_string) = elim (redact err_string) [
  | none ↦ panicked
  | some message ↦ rejected message
]

-- `validator` is none where the field is nil.
unfoldable pub parse_principal :
    (mock_local_principal : String) (validator : Option (String → Validation)) (token : String)
    → Principal
unfolding principal_from
parse_principal mock_local_principal none token =
    if mock_local_principal == ""
    then rejected "JWT validator is not set up"
    else principal_of mock_local_principal
parse_principal mock_local_principal (some validate_token) token =
    if mock_local_principal == ""
    then principal_from (validate_token token)
    else principal_of mock_local_principal

-- A request's headers, each under the name that the code asks for, and the values of its context.
pub record Request : Type 0 where
  pub headers : List (Pair String)
  pub context : List (Pair String)

-- r.Header.Get
abbrev header_of : String → List (Pair String) → String
header_of name headers = elim (lookup name headers) [ none ↦ "" | some v ↦ v ]

-- AuthorizationMiddleware: the request that is passed on
unfoldable pub authorization_middleware : Request → Request
unfolding lookup insert
authorization_middleware r = record r {
  context = insert "authorization" (header_of "authorization" r.headers) r.context;
}

-- RequestIDMiddleware: the request that is passed on, and the response's header
unfoldable pub request_id_middleware : (generated : String) → Request → Request × Pair String
unfolding lookup insert
request_id_middleware generated r =
    let stated = header_of "X-REQUEST-ID" r.headers in
    let request_id = if stated == "" then generated else stated in
    (
      record r { context = insert "X-REQUEST-ID" request_id r.context },
      ("X-REQUEST-ID", request_id),
    )
