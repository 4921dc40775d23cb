-- ===== src/Http/Download/Reading.antt =====
-- Read of documentDownloadBody in cmd/project-api/service_endpoint_document.go, called until io.EOF.
use lfx_v2_project_service.Prelude.{
  ℕ, zero, suc, ◌+◌, ◌-◌, ◌≤◌, ◌<◌, Bool, true, false, Option, none, some, List, [], ◌∷◌, ◌++◌,
  length, leb, ◌≡◌, refl, sym, ap, ◌∙◌, arith, Bool-cases, ◌⊎◌, inl, inr,
}
use lfx_v2_project_service.Http.Download.{DocumentDownloadBody, read, take, drop}

abbrev gather : Option (List ℕ) → List ℕ × Bool → List ℕ × Bool
gather none rest = ([], true)
gather (some chunk) rest = (chunk ++ rest.0, rest.1)

-- io.ReadAll with a buffer of one size: what was read and whether the end has come, with fuel for the
-- calls of Read.
unfoldable pub read_all : (fuel capacity : ℕ) → DocumentDownloadBody → List ℕ × Bool
read_all zero capacity b = ([], false)
read_all (suc fuel) capacity b =
    let one = read capacity b in gather one.0 (read_all fuel capacity one.1)

take-rest : (k : ℕ) (xs : List ℕ) → take k xs ++ drop (length (take k xs)) xs ≡ xs
unfolding take drop
take-rest zero xs = refl
take-rest (suc k) [] = refl
take-rest (suc k) (x ∷ xs) = ap (λ ys. x ∷ ys) (take-rest k xs)

drop_empty : (n : ℕ) → drop n [] ≡ []
unfolding drop
drop_empty zero = refl
drop_empty (suc n) = refl

zero_add : (m : ℕ) → 0 + m ≡ m
zero_add m = omega arith

suc_add : (n m : ℕ) → suc n + m ≡ suc (n + m)
suc_add n m = omega arith

drop-add : (n m : ℕ) (xs : List ℕ) → drop (n + m) xs ≡ drop m (drop n xs)
unfolding drop
drop-add zero m xs = ap (λ k. drop k xs) (zero_add m)
drop-add (suc n) m [] = drop_empty (suc n + m) ∙ sym (drop_empty m)
drop-add (suc n) m (x ∷ xs) = ap (λ k. drop k (x ∷ xs)) (suc_add n m) ∙ drop-add n m xs

drop-nil : (n : ℕ) (xs : List ℕ) → length xs ≤ n → drop n xs ≡ []
unfolding drop
drop-nil zero [] h = refl
drop-nil zero (x ∷ xs) h = absurd (ground arith)
drop-nil (suc n) [] h = refl
drop-nil (suc n) (x ∷ xs) h = drop-nil n xs (ground arith)

length-take-drop : (n k : ℕ) (xs : List ℕ) → n < length xs → 0 < k → 0 < length (take k (drop n xs))
unfolding take drop
length-take-drop zero k [] h p = absurd (ground arith)
length-take-drop zero zero (x ∷ xs) h p = absurd (ground arith)
length-take-drop zero (suc k) (x ∷ xs) h p = omega arith
length-take-drop (suc n) k [] h p = absurd (ground arith)
length-take-drop (suc n) k (x ∷ xs) h p = length-take-drop n k xs (ground arith) p

read-end :
    (capacity : ℕ) (b : DocumentDownloadBody)
    → length b.content ≤ b.offset
    → read capacity b ≡ (none, b)
unfolding read
read-end capacity b h = ground arith

read-chunk :
    (capacity : ℕ) (b : DocumentDownloadBody)
    → b.offset < length b.content
    → read capacity b ≡ (
      some (take capacity (drop b.offset b.content)),
      record b { offset = b.offset + length (take capacity (drop b.offset b.content)) },
    )
unfolding read
read-chunk capacity b h = ground arith

leq-cases : (m n : ℕ) → (m ≤ n) ⊎ (n < m)
leq-cases m n = elim (Bool-cases (leb m n)) [
  | inl h ↦ inl (ground arith)
  | inr h ↦ inr (ground arith)
]

-- From any offset, with enough fuel, Read hands out the rest of the file.
read_all-drop :
    (fuel capacity : ℕ) (b : DocumentDownloadBody)
    → 0 < capacity
    → length b.content - b.offset < fuel
    → read_all fuel capacity b ≡ (drop b.offset b.content, true)
unfolding read_all
read_all-drop zero capacity b p h = absurd (ground arith)
read_all-drop (suc fuel) capacity b p h =
    let step = λ (one : Option (List ℕ) × DocumentDownloadBody).
      gather one.0 (read_all fuel capacity one.1) in
    elim (leq-cases (length b.content) b.offset) [
      | inl le ↦
          ap step (read-end capacity b le)
          ∙ ap (λ xs. (xs, true)) (sym (drop-nil b.offset b.content le))
      | inr lt ↦
          let chunk = take capacity (drop b.offset b.content) in
          let next = record b { offset = b.offset + length chunk } in
          let grown = length-take-drop b.offset capacity b.content lt p in
          let rest = read_all-drop fuel capacity next p (ground arith) in
          ap step (read-chunk capacity b lt)
          ∙ ap (gather (some chunk)) rest
          ∙ ap (λ ys. (chunk ++ ys, true)) (drop-add b.offset (length chunk) b.content)
          ∙ ap (λ xs. (xs, true)) (take-rest capacity (drop b.offset b.content))
    ]

-- Reading the body of a download from its start with a nonempty buffer hands out the whole file and
-- then reports its end, within one call of Read more than the file has bytes.
pub read_all-content :
    (capacity : ℕ) (b : DocumentDownloadBody)
    → 0 < capacity
    → b.offset ≡ 0
    → read_all (suc (length b.content)) capacity b ≡ (b.content, true)
unfolding drop
read_all-content capacity b p start =
    read_all-drop (suc (length b.content)) capacity b p (ground arith)
    ∙ ap (λ n. (drop n b.content, true)) start
