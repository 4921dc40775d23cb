-- ===== src/Cli/Env.antt =====
-- pkg/env/env.go: the variables that the flags of the tool take their defaults from. An unset
-- variable is the empty text, as os.Getenv gives it; strings.ToLower and strconv.Atoi are parameters.
use lfx_v2_project_service.Prelude.{
  String, ◌≡◌, refl, Bool, true, false, Option, none, some, ◌||◌, ◌==◌, if◌then◌else◌,
}
use lfx_v2_project_service.Prelude.Text.{trim_space}

module _ (getenv : String → String) where
  unfoldable pub get : (key default_value : String) → String
  get key default_value = let v = trim_space (getenv key) in if v == "" then default_value else v

  unfoldable pub get_bool :
      (to_lower : String → String) (key : String) (default_value : Bool) → Bool
  get_bool to_lower key default_value =
      let v = trim_space (getenv key) in
      let w = to_lower v in
      if v == ""
      then default_value
      else if w == "true" || w == "1" || w == "t" || w == "yes"
      then true
      else if w == "false" || w == "0" || w == "f" || w == "no"
      then false
      else default_value

  unfoldable pub get_int :
      {I : Type 0} (atoi : String → Option I) (key : String) (default_value : I) → I
  get_int {I} atoi key default_value =
      let v = trim_space (getenv key) in
      let parsed : I = elim (atoi v) [ none ↦ default_value | some i ↦ i ] in
      if v == "" then default_value else parsed

dry_run_read :
    (get_bool (λ key. " no ") (λ s. s) "DRY_RUN" true ≡ false)
    × (get_bool (λ key. "maybe") (λ s. s) "DRY_RUN" true ≡ true)
    × (get (λ key. " ") "OLD_SLUG" "a" ≡ "a")
unfolding get_bool get trim_space
dry_run_read = (refl, refl, refl)
