-- ===== src/Prelude/Lists.antt =====
-- Membership in a list and a property of all its elements, by recursion.
use mathlib.Core.Path.{◌≡◌, subst}
use mathlib.Core.Logic.{◌⊎◌, inl, inr}
use mathlib.Core.List.{List, [], ◌∷◌, ◌++◌}

abbrev pub Member : {A : Type 0} → A → List A → Type 0
Member x [] = ⊥
Member x (y ∷ ys) = (x ≡ y) ⊎ Member x ys

abbrev pub All : {A : Type 0} → (A → Type 0) → List A → Type 0
All P [] = Unit
All P (x ∷ xs) = P x × All P xs

pub All-append :
    {A : Type 0} (P : A → Type 0) (xs ys : List A) → All P xs → All P ys → All P (xs ++ ys)
All-append P [] ys hx hy = hy
All-append P (x ∷ xs) ys hx hy = (hx.0, All-append P xs ys hx.1 hy)

pub Member-along : {A : Type 0} (a : A) (xs ys : List A) → xs ≡ ys → Member a xs → Member a ys
Member-along a xs ys e m = subst (Member a) e m

pub Member-append :
    {A : Type 0} (xs ys : List A) (x : A) → Member x (xs ++ ys) → Member x xs ⊎ Member x ys
Member-append [] ys x mem = inr mem
Member-append (y ∷ xs) ys x (inl e) = inl (inl e)
Member-append (y ∷ xs) ys x (inr later) = elim (Member-append xs ys x later) [
  | inl here ↦ inl (inr here)
  | inr there ↦ inr there
]
