-- ===== src/Http/Fallback.antt =====
-- The name of a file for old clients, in WriteTo of cmd/project-api/service_endpoint_document.go.
use Prim.Native.String.{String, [], ◌∷◌}
use Prim.Native.Char.{Char, code}
use lfx_v2_project_service.Prelude.{ℕ, Bool, ◌||◌, ◌≡◌, refl, if◌then◌else◌, ltb, nat_eq}

-- The test of the function that strings.Map applies to each rune.
unfoldable pub is_replaced : ℕ → Bool
is_replaced r = ltb 127 r || nat_eq r 34 || nat_eq r 92 || nat_eq r 10 || nat_eq r 13

unfoldable pub ascii_rune : Char → Char
unfolding is_replaced
ascii_rune c = if is_replaced (code c) then "_" else c

unfoldable pub ascii_fallback : String → String
unfolding ascii_rune
ascii_fallback [] = []
ascii_fallback (c ∷ s) = ascii_rune c ∷ ascii_fallback s

fallback : ascii_fallback "a\"é.txt" ≡ "a__.txt"
unfolding ascii_fallback
fallback = refl
