-- ===== src/Http/Authentication/Cuts.antt =====
-- On the cutting of the text of an error in ParsePrincipal of internal/infrastructure/auth/jwt.go.
use Prim.Native.Char.{code}
use Prim.Native.String.{[], ◌∷◌}
use text.Mathlib.TextLemmas.{nil-append, cons-append, append-nil}
use lfx_v2_project_service.Prelude.{
  ℕ, zero, suc, ◌+◌, ◌<◌, String, ◌≡◌, refl, ◌⊎◌, inl, inr, true, none, some, arith, nat_eq,
  Bool-cases, Option-cases,
}
use lfx_v2_project_service.Prelude.Text.{has_prefix, sprintf}
use lfx_v2_project_service.Http.Authentication.{colon_index, slice_from, slice_to, cut_second}

abbrev pub size : String → ℕ
size [] = 0
size (c ∷ s) = size s + 1

slice_from-parts :
    (n : ℕ) (s r : String)
    → slice_from n s ≡ some r
    → (sprintf (slice_to n s) r ≡ s) × (size (slice_to n s) ≡ n) × (size s ≡ n + size r)
unfolding slice_from slice_to
slice_from-parts zero s r h = let e : s ≡ r = cc h in rw e (nil-append r, refl, omega arith)
slice_from-parts (suc n) [] r h = absurd (cc h)
slice_from-parts (suc n) (c ∷ s) r h =
    let (whole, front, total) = slice_from-parts n s r h in
    (rw (cons-append c (slice_to n s) r, whole) refl, omega arith, omega arith)

pub size-some : (n : ℕ) (s r : String) → slice_from n s ≡ some r → size s ≡ n + size r
size-some n s r h = (slice_from-parts n s r h).2

pub size-none : (n : ℕ) (s : String) → slice_from n s ≡ none → size s < n
unfolding slice_from
size-none zero s h = absurd (cc h)
size-none (suc n) [] h = omega arith
size-none (suc n) (c ∷ s) h = omega (arith, size-none n s h)

pub colon_index-below : (s : String) (i : ℕ) → colon_index s ≡ some i → i < size s
unfolding colon_index
colon_index-below [] i h = absurd (cc h)
colon_index-below (c ∷ s) i h = elim (Bool-cases (nat_eq (code c) 58)) [
  | inl colon ↦ let e : 0 ≡ i = (let g = rw colon at h in cc g) in rw (← e) (omega arith)
  | inr other ↦ elim (Option-cases (colon_index s)) [
    | inl e ↦ absurd (let g = rw (other, e) at h in cc g)
    | inr (j, e) ↦
        let same : suc j ≡ i = (let g = rw (other, e) at h in cc g) in
        rw (← same) (omega (arith, colon_index-below s j e))
  ]
]

colon_index-starts :
    (s : String) (i : ℕ)
    → colon_index s ≡ some i
    → (rest : String) × (slice_from i s ≡ some rest) × (has_prefix rest ":" ≡ true)
unfolding colon_index slice_from
colon_index-starts [] i h = absurd (cc h)
colon_index-starts (c ∷ s) i h = elim (Bool-cases (nat_eq (code c) 58)) [
  | inl colon ↦
      let e : 0 ≡ i = (let g = rw colon at h in cc g) in
      rw (← e) (c ∷ s, refl, unfold has_prefix in ground arith)
  | inr other ↦ elim (Option-cases (colon_index s)) [
    | inl e ↦ absurd (let g = rw (other, e) at h in cc g)
    | inr (j, e) ↦
        let same : suc j ≡ i = (let g = rw (other, e) at h in cc g) in
        rw (← same) (colon_index-starts s j e)
  ]
]

slice_from-add :
    (n j : ℕ) (s r q : String)
    → slice_from n s ≡ some r
    → slice_from j r ≡ some q
    → slice_from (n + j) s ≡ some q
unfolding slice_from
slice_from-add zero j s r q h k =
    let e : 0 + j ≡ j = omega arith in let same : s ≡ r = cc h in rw (e, same) k
slice_from-add (suc n) j [] r q h k = absurd (cc h)
slice_from-add (suc n) j (c ∷ s) r q h k =
    let e : suc n + j ≡ suc (n + j) = omega arith in rw e (slice_from-add n j s r q h k)

-- A beginning of a text that is all of it, or ends in front of a colon and has more than `i`
-- characters.
abbrev pub IsCut : (i : ℕ) (text m : String) → Type 0
IsCut i text m =
    (rest : String) × (sprintf m rest ≡ text)
    × ((rest ≡ "") ⊎ ((has_prefix rest ":" ≡ true) × (i < size m)))

pub cut_second-IsCut : (i : ℕ) (t m : String) → cut_second i t ≡ some m → IsCut i t m
unfolding cut_second
cut_second-IsCut i t m h = elim (Option-cases (slice_from (i + 1) t)) [
  | inl out ↦ absurd (let g = rw (out, cut_second) at h in cc g)
  | inr (r, behind) ↦ elim (Option-cases (colon_index r)) [
    | inl e ↦
        let g1 = rw (behind, cut_second) at h in
        let g = rw e at g1 in let same : t ≡ m = cc g in rw (← same) ("", append-nil t, inl refl)
    | inr (j, e) ↦
        let g1 = rw (behind, cut_second) at h in
        let g = rw e at g1 in
        let same : slice_to (i + j + 1) t ≡ m = cc g in
        let (q, found, starts) = colon_index-starts r j e in
        let at_end : i + j + 1 ≡ (i + 1) + j = omega arith in
        let (whole, front, _) =
          slice_from-parts ((i + 1) + j) t q (slice_from-add (i + 1) j t r q behind found) in
        rw (← same, at_end) (q, whole, inr (starts, omega arith))
  ]
]
