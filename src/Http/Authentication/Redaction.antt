-- ===== src/Http/Authentication/Redaction.antt =====
-- On the text of the errors that ParsePrincipal of internal/infrastructure/auth/jwt.go answers.
use Prim.Native.Char.{code}
use Prim.Native.String.{[], ◌∷◌}
use lfx_v2_project_service.Prelude.{
  ℕ, ◌+◌, ◌<◌, String, ◌≡◌, ◌⊎◌, none, some, nat_eq, if◌then◌else◌,
}
use lfx_v2_project_service.Http.Authentication.Cuts.{size, IsCut}
use lfx_v2_project_service.Http.Authentication.{colon_index, remove_first}

-- The number of colons in a text.
abbrev pub colons : String → ℕ
colons [] = 0
colons (c ∷ s) = (if nat_eq (code c) 58 then 1 else 0) + colons s

abbrev jose : String
jose = ": go-jose/go-jose/jwt"

-- The text of an error without the library's name, cut no earlier than behind its first colon.
abbrev pub IsShown : (err_string m : String) → Type 0
IsShown s m =
    ((m ≡ s) × (colon_index s ≡ none))
    ⊎ ((i : ℕ) × (colon_index s ≡ some i)
        × (((m ≡ s) × (size s ≡ i + 1)) ⊎ ((i + 1 < size s) × IsCut i (remove_first jose s) m)))
