-- ===== src/Exec.antt =====
-- Fallible code, and fallible code that changes the state of the world. What was written before an
-- error stays written, so an action gives the world back beside the error too.
use lfx_v2_project_service.Prelude.{◌≡◌, refl, Bool, true, false, Option, none, some}
use lfx_v2_project_service.Domain.Error.{Error}

pub data Result {ℓ} (A : Type ℓ) : Type ℓ where
  ok : A → Result A
  err : Error → Result A

abbrev pub Exec : Type 0 → Type 0 → Type 0
Exec W A = W → Result A × W

-- `err != nil` is passed on after a change of the error.
abbrev pub map_err {ℓ} : {A : Type ℓ} → (Error → Error) → Result A → Result A
map_err f (ok a) = ok a
map_err f (err e) = err (f e)

abbrev pub bind {ℓ κ} : {A : Type ℓ} {B : Type κ} → Result A → (A → Result B) → Result B
bind (ok a) f = f a
bind (err e) f = err e

-- The error of a failure; of a success, any.
abbrev pub error_of {ℓ} : {A : Type ℓ} → Result A → Error
error_of (ok a) = Error.internal
error_of (err e) = e

abbrev pub is_ok {ℓ} : {A : Type ℓ} → Result A → Bool
is_ok (ok a) = true
is_ok (err e) = false

-- The parts of a successful bind.
pub bind-eq-ok {ℓ κ} :
    {A : Type ℓ} {B : Type κ} (m : Result A) (f : A → Result B) {b : B}
    → bind m f ≡ ok b
    → (a : A) × (m ≡ ok a) × (f a ≡ ok b)
bind-eq-ok (ok a) f h = (a, refl, h)
bind-eq-ok (err e) f h = cc

module _ {W A : Type 0} where
  abbrev pub pure : A → Exec W A
  pure a w = (ok a, w)

  abbrev pub raise : Error → Exec W A
  raise e w = (err e, w)

  -- A call that reads the world and leaves it as it is.
  abbrev pub read : (W → Result A) → Exec W A
  read f w = (f w, w)

  -- The error of an action, changed.
  abbrev pub change_err : (Error → Error) → Exec W A → Exec W A
  change_err f m w = let (r, w') = m w in (map_err f r, w')

  -- The result of an action as a value, for code that goes on after an error.
  abbrev pub try : Exec W A → Exec W (Result A)
  try m w = let (r, w') = m w in (ok r, w')

  abbrev pub from_option : Error → Option A → Exec W A
  from_option e none = raise e
  from_option e (some a) = pure a

module _ {W A B : Type 0} where
  abbrev continue : Result A → W → (A → Exec W B) → Result B × W
  continue (ok a) w f = f a w
  continue (err e) w f = (err e, w)

  infixl 5 ◌>>=◌ ◌>>◌
  abbrev pub ◌>>=◌ : Exec W A → (A → Exec W B) → Exec W B
  ◌>>=◌ m f w = let (r, w') = m w in continue r w' f

  abbrev pub ◌>>◌ : Exec W A → Exec W B → Exec W B
  ◌>>◌ m n = m >>= λ _. n

module _ {W A B : Type 0} where
  continue-eq-ok :
      (r : Result A) (w : W) (n : Exec W B) {b : B}
      → (continue r w (λ _. n)).0 ≡ ok b
      → (is_ok r ≡ true) × (continue r w (λ _. n) ≡ n w)
  continue-eq-ok (ok a) w n h = (refl, refl)
  continue-eq-ok (err e) w n h = absurd (cc h)

  -- The parts of a sequence that succeeds.
  pub >>-eq-ok :
      (m : Exec W A) (n : Exec W B) (w : W) {b : B}
      → ((m >> n) w).0 ≡ ok b
      → (is_ok (m w).0 ≡ true) × ((m >> n) w ≡ n (m w).1)
  >>-eq-ok m n w h = continue-eq-ok (m w).0 (m w).1 n h

abbrev pub guard : {W : Type 0} → Bool → Error → Exec W (Unit {0})
guard true e = pure tt
guard false e = raise e
