-- ===== src/Prelude/Text.antt =====
-- The functions of Go's `strings` and `strconv` that the service calls.
use Prim.Native.Nat.{ℕ, zero, suc, ◌+◌, ◌-◌, ◌*◌, ◌^◌, ◌<◌, ◌/◌, ◌%◌}
use Prim.Native.Char.{Char, code}
use Prim.Native.String.{String, [], ◌∷◌, ◌++◌}
use mathlib.Core.Path.{◌≡◌, refl, sym, ap, ◌∙◌}
use mathlib.Core.Logic.{inl, inr}
use mathlib.Core.Bool.{Bool, true, false, ◌&&◌, ◌||◌}
use mathlib.Core.Option.{Option, none, some}
use native.Mathlib.Omega.{arith}
use native.Mathlib.Nat.{pow-suc}
use text.Mathlib.TextLemmas.{append_cancel_left, cons-append}
use lfx_v2_project_service.Prelude.Tests.{Bool-cases, leb, ltb, nat_eq, ◌==◌, if◌then◌else◌}

-- unicode.IsSpace
abbrev is_space : ℕ → Bool
is_space c =
    (leb 9 c && leb c 13)
    || nat_eq c 32
    || nat_eq c 0x85
    || nat_eq c 0xA0
    || nat_eq c 0x1680
    || (leb 0x2000 c && leb c 0x200A)
    || nat_eq c 0x2028
    || nat_eq c 0x2029
    || nat_eq c 0x202F
    || nat_eq c 0x205F
    || nat_eq c 0x3000

trim_left : String → String
trim_left [] = []
trim_left (c ∷ s) = if is_space (code c) then trim_left s else c ∷ s

trim_right : String → String
trim_right [] = []
trim_right (c ∷ s) = let r = trim_right s in if is_space (code c) && r == "" then "" else c ∷ r

-- strings.TrimSpace
unfoldable pub trim_space : String → String
unfolding trim_left trim_right
trim_space s = trim_right (trim_left s)

trimmed : trim_space " a b  " ≡ "a b"
unfolding trim_space
trimmed = refl

-- fmt.Sprintf("a%s", b), for a format that ends in its only verb
abbrev pub sprintf : String → String → String
sprintf a b = a ++ b

pub sprintf_cancel : (a b c : String) → sprintf a b ≡ sprintf a c → b ≡ c
sprintf_cancel a b c h = append_cancel_left a b c h

-- strings.HasPrefix
unfoldable pub has_prefix : String → String → Bool
has_prefix s [] = true
has_prefix [] (d ∷ p) = false
has_prefix (c ∷ s) (d ∷ p) = nat_eq (code c) (code d) && has_prefix s p

pub has_prefix-sprintf : (p s : String) → has_prefix (sprintf p s) p ≡ true
unfolding has_prefix
has_prefix-sprintf [] s = refl
has_prefix-sprintf (c ∷ p) s = rw (cons-append c p s) (ground (arith, has_prefix-sprintf p s))

-- strings.TrimPrefix
unfoldable pub trim_prefix : String → String → String
trim_prefix s [] = s
trim_prefix [] (d ∷ p) = []
trim_prefix (c ∷ s) (d ∷ p) = if has_prefix (c ∷ s) (d ∷ p) then trim_prefix s p else c ∷ s

prefixes :
    (has_prefix "slug/abc" "slug/" ≡ true)
    × (has_prefix "slu" "slug/" ≡ false)
    × (trim_prefix "slug/abc" "slug/" ≡ "abc")
    × (trim_prefix "slot" "slug/" ≡ "slot")
unfolding has_prefix trim_prefix
prefixes = (refl, refl, refl, refl)

digit_char : ℕ → Char
digit_char zero = "0"
digit_char (suc zero) = "1"
digit_char (suc (suc zero)) = "2"
digit_char (suc (suc (suc zero))) = "3"
digit_char (suc (suc (suc (suc zero)))) = "4"
digit_char (suc (suc (suc (suc (suc zero))))) = "5"
digit_char (suc (suc (suc (suc (suc (suc zero)))))) = "6"
digit_char (suc (suc (suc (suc (suc (suc (suc zero))))))) = "7"
digit_char (suc (suc (suc (suc (suc (suc (suc (suc zero)))))))) = "8"
digit_char _ = "9"

-- The digits of a number before a text; the fuel bounds the number of digits.
format_from : ℕ → ℕ → String → String
format_from zero n s = s
format_from (suc fuel) n s =
    let t = digit_char (n % 10) ∷ s in
    let rest = format_from fuel (n / 10) t in if ltb n 10 then t else rest

-- strconv.FormatUint(n, 10): a 64-bit number has at most 20 digits.
unfoldable pub format_uint : ℕ → String
unfolding format_from digit_char
format_uint n = format_from 20 n ""

abbrev pub uint64_mod : ℕ
uint64_mod = 2 ^ 64

parse_digits : ℕ → String → Option ℕ
parse_digits n [] = some n
parse_digits n (c ∷ s) =
    let d = code c in
    let rest = parse_digits (n * 10 + (d - 48)) s in
    if leb 48 d && leb d 57 && ltb (n * 10 + (d - 48)) uint64_mod then rest else none

-- strconv.ParseUint(s, 10, 64); `none` is a syntax or a range error.
unfoldable pub parse_uint : String → Option ℕ
unfolding parse_digits
parse_uint [] = none
parse_uint (c ∷ s) = parse_digits 0 (c ∷ s)

numbers :
    (format_uint 0 ≡ "0")
    × (format_uint 1207 ≡ "1207")
    × (parse_uint "1207" ≡ some 1207)
    × (parse_uint "18446744073709551616" ≡ none)
    × (parse_uint "+1" ≡ none)
    × (parse_uint "" ≡ none)
unfolding format_uint parse_uint
numbers = (refl, refl, refl, refl, refl, refl)

code-digit_char : (d : ℕ) → d < 10 → code (digit_char d) ≡ 48 + d
unfolding digit_char
code-digit_char zero h = refl
code-digit_char (suc zero) h = refl
code-digit_char (suc (suc zero)) h = refl
code-digit_char (suc (suc (suc zero))) h = refl
code-digit_char (suc (suc (suc (suc zero)))) h = refl
code-digit_char (suc (suc (suc (suc (suc zero))))) h = refl
code-digit_char (suc (suc (suc (suc (suc (suc zero)))))) h = refl
code-digit_char (suc (suc (suc (suc (suc (suc (suc zero))))))) h = refl
code-digit_char (suc (suc (suc (suc (suc (suc (suc (suc zero)))))))) h = refl
code-digit_char (suc (suc (suc (suc (suc (suc (suc (suc (suc zero))))))))) h = refl
code-digit_char (suc (suc (suc (suc (suc (suc (suc (suc (suc (suc d)))))))))) h =
    absurd (omega arith)

parse_digits-digit :
    (n d : ℕ) (s : String)
    → d < 10
    → n * 10 + d < uint64_mod
    → parse_digits n (digit_char d ∷ s) ≡ parse_digits (n * 10 + d) s
unfolding parse_digits
parse_digits-digit n d s h b = ground (arith, code-digit_char d h)

parse_digits-format_from :
    (fuel n : ℕ) (s : String)
    → n < 10 ^ fuel
    → n < uint64_mod
    → parse_digits 0 (format_from fuel n s) ≡ parse_digits n s
unfolding format_from
parse_digits-format_from zero n s h b = let z : n ≡ 0 = omega arith in rw z
parse_digits-format_from (suc fuel) n s h b =
    let t = digit_char (n % 10) ∷ s in
    let step : parse_digits (n / 10) t ≡ parse_digits n s =
      parse_digits-digit (n / 10) (n % 10) s (omega arith) (omega arith)
      ∙ ap (λ m. parse_digits m s) (omega arith) in
    elim (Bool-cases (ltb n 10)) [
      | inl small ↦ rw small (
          parse_digits-digit 0 (n % 10) s (omega arith) (omega arith)
          ∙ ap (λ m. parse_digits m s) (ground arith))
      | inr large ↦ rw large (
          parse_digits-format_from fuel (n / 10) t (omega (arith, pow-suc 10 fuel)) (omega arith)
          ∙ step)
    ]

format_from-cons :
    (fuel n : ℕ) (c : Char) (s : String)
    → (d : Char) × (t : String) × (format_from fuel n (c ∷ s) ≡ d ∷ t)
unfolding format_from
format_from-cons zero n c s = (c, s, refl)
format_from-cons (suc fuel) n c s = elim (Bool-cases (ltb n 10)) [
  | inl small ↦ rw small (digit_char (n % 10), c ∷ s, refl)
  | inr large ↦ rw large (format_from-cons fuel (n / 10) (digit_char (n % 10)) (c ∷ s))
]

format_from_nonempty :
    (fuel n : ℕ) → (d : Char) × (t : String) × (format_from (suc fuel) n "" ≡ d ∷ t)
unfolding format_from
format_from_nonempty fuel n = elim (Bool-cases (ltb n 10)) [
  | inl small ↦ rw small (digit_char (n % 10), "", refl)
  | inr large ↦ rw large (format_from-cons fuel (n / 10) (digit_char (n % 10)) "")
]

parse_uint-format_from :
    (fuel n : ℕ)
    → n < 10 ^ suc fuel
    → n < uint64_mod
    → parse_uint (format_from (suc fuel) n "") ≡ some n
unfolding parse_uint
parse_uint-format_from fuel n h b =
    let (c, s, e) = format_from_nonempty fuel n in
    ap parse_uint e ∙ ap (parse_digits 0) (sym e) ∙ parse_digits-format_from (suc fuel) n "" h b

-- The text of every 64-bit number reads back as that number.
pub parse_uint-format_uint : (n : ℕ) → n < uint64_mod → parse_uint (format_uint n) ≡ some n
unfolding format_uint
parse_uint-format_uint n h = parse_uint-format_from 19 n (omega arith) h

-- strings.TrimRight(s, "/")
unfoldable pub trim_right_slashes : String → String
trim_right_slashes [] = []
trim_right_slashes (c ∷ s) =
    let r = trim_right_slashes s in if nat_eq (code c) 47 && r == "" then "" else c ∷ r

slashes : trim_right_slashes "https://x.org/a//" ≡ "https://x.org/a"
unfolding trim_right_slashes
slashes = refl
