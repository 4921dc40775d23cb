-- ===== src/Prelude/Assoc.antt =====
-- Go's map[string]V as an association list with one entry for each key.
use lfx_v2_project_service.Prelude.Tests.{◌==◌, if◌then◌else◌}
use Prim.Native.String.{String}
use mathlib.Core.Path.{◌≡◌, refl}
use mathlib.Core.Option.{Option, none, some}
use mathlib.Core.List.{List, [], ◌∷◌}
use native.Mathlib.Omega.{arith}
use text.Mathlib.TextEquality.{eq_iff}

-- A key and what it holds.
abbrev pub Pair {ℓ} : Type ℓ → Type ℓ
Pair V = String × V

module _ {ℓ} {V : Type ℓ} where
  unfoldable pub remove : String → List (Pair V) → List (Pair V)
  remove key [] = []
  remove key (pair ∷ m) = let rest = remove key m in if pair.0 == key then rest else pair ∷ rest

  unfoldable pub lookup : String → List (Pair V) → Option V
  lookup key [] = none
  lookup key (pair ∷ m) = let later = lookup key m in if pair.0 == key then some pair.1 else later

  unfoldable pub insert : String → V → List (Pair V) → List (Pair V)
  insert key new [] = (key, new) ∷ []
  insert key new (pair ∷ m) =
      let later = pair ∷ insert key new m in if pair.0 == key then (key, new) ∷ m else later

  pub lookup-remove :
      (m : List (Pair V)) (gone key : String)
      → lookup key (remove gone m) ≡ (if gone == key then none else lookup key m)
  unfolding lookup remove
  lookup-remove [] gone key = ground arith
  lookup-remove (pair ∷ m) gone key =
      ground
        (arith, lookup-remove m gone key, eq_iff pair.0 gone, eq_iff pair.0 key, eq_iff gone key)

  pub lookup-insert :
      (m : List (Pair V)) (new : V) (written key : String)
      → lookup key (insert written new m) ≡ (if written == key then some new else lookup key m)
  unfolding insert lookup
  lookup-insert [] new written key = refl
  lookup-insert (pair ∷ m) new written key = ground (
    arith,
    lookup-insert m new written key,
    eq_iff pair.0 written,
    eq_iff pair.0 key,
    eq_iff written key,
  )
