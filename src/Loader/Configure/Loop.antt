-- ===== src/Loader/Configure/Loop.antt =====
-- The options loop: it ends, and it is the passing of the parsed options one by one.
use evmc.Base.{ℕ, zero, suc, ◌≡◌, ◌<◌, refl, ap, Option, none, some, List, [], ◌∷◌, length, arith}
use mathlib.Core.Path.{subst⁻¹}
use evmc.CString.{Text}
use evmc.Helpers.Vm.{
  Vm, History, SetOptionResult, set_option_success, set_option_invalid_name,
  set_option_invalid_value, set_option_other, option_set,
}
use evmc.Loader.Types.{
  LoaderErrorCode, loader_success, invalid_option_name, invalid_option_value, Loader, log,
}
use evmc.Loader.Configure.{
  get_token, Outcome, left, option_result, options_loop, SetOption, options_round,
}
use evmc.Loader.Configure.Tokens.{tokens, tokens-get_token, get_token_shorter, parse_options}

-- What the answer to one option makes of the outcome of the others.
abbrev pub judge : SetOptionResult → History → LoaderErrorCode × History → LoaderErrorCode × History
judge set_option_success h rest = rest
judge set_option_invalid_name h rest = (invalid_option_name, h)
judge set_option_invalid_value h rest = (invalid_option_value, h)
judge (set_option_other n) h rest = (invalid_option_value, h)

-- Passes the options in their order until one is refused: the code, and the calls.
unfoldable pub set_all : Vm → SetOption → History → List (Text × Text) → LoaderErrorCode × History
set_all vm f h [] = (loader_success, h)
set_all vm f h ((name, value) ∷ os) =
    let r = f h name value in
    let h' = option_set vm.vm_pointer name value r ∷ h in judge r h' (set_all vm f h' os)

-- The loop is left with this code and these calls; what the caller gave stays, and no message is
-- left on success.
abbrev pub Leaves : Loader → LoaderErrorCode × History → Outcome → Type 0
Leaves s (ec, h) o =
    (s' : Loader) × (o ≡ left ec s')
    × (s'.history ≡ h)
    × (s'.error_code ≡ s.error_code)
    × (ec ≡ loader_success → s'.last_error_msg ≡ s.last_error_msg)

module _ (vm : Vm) (path name value : Text) (next : Loader → Outcome) (s : Loader) where
  option_result-Leaves :
      (r : SetOptionResult) (rest : LoaderErrorCode × History)
      → Leaves s rest (next s)
      → Leaves s (judge r s.history rest) (option_result vm path name value r next s)
  unfolding option_result
  option_result-Leaves set_option_success rest h = h
  option_result-Leaves set_option_invalid_name rest h = (_, refl, refl, refl, λ e. cc)
  option_result-Leaves set_option_invalid_value rest h = (_, refl, refl, refl, λ e. cc)
  option_result-Leaves (set_option_other n) rest h = (_, refl, refl, refl, λ e. cc)

module _ (vm : Vm) (path : Text) (f : SetOption) (has : vm.set_option ≡ some f) where
  abbrev cut : ℕ → Text → Text × Text
  cut c options = get_token (c ∷ options) b','

  abbrev option : ℕ → Text → Text × Text
  option c options = get_token (cut c options).0 b'='

  -- The loader after the option is passed.
  abbrev passed : ℕ → Text → Loader → Loader
  passed c options s =
      let o = option c options in log (option_set vm.vm_pointer o.0 o.1 (f s.history o.0 o.1)) s

  options_loop_step :
      (fuel c : ℕ) (options : Text) (s : Loader)
      → options_loop (suc fuel) vm path (c ∷ options) s
        ≡ option_result vm path
            (option c options).0
            (option c options).1
            (f s.history (option c options).0 (option c options).1)
            (options_loop fuel vm path (cut c options).1)
            (passed c options s)
  unfolding options_loop
  options_loop_step fuel c options s =
      ap
        (λ (m : Option SetOption).
          options_round m vm path (c ∷ options) (options_loop fuel vm path) s)
        has

  set_all_step :
      (c : ℕ) (options : Text) (s : Loader)
      → set_all vm f s.history (parse_options (tokens b',' (c ∷ options)))
        ≡ judge
            (f s.history (option c options).0 (option c options).1)
            (passed c options s).history
            (set_all vm f
              (passed c options s).history
              (parse_options (tokens b',' (cut c options).1)))
  set_all_step c options s = rw tokens-get_token (unfold parse_options set_all in refl)

  pub options_loop-set_all :
      (fuel : ℕ) (options : Text) (s : Loader)
      → length options < fuel
      → Leaves s
          (set_all vm f s.history (parse_options (tokens b',' options)))
          (options_loop fuel vm path options s)
  options_loop-set_all zero options s h = absurd (omega arith)
  options_loop-set_all (suc fuel) [] s h =
      unfold options_loop tokens parse_options set_all in (s, refl, refl, refl, λ e. refl)
  options_loop-set_all (suc fuel) (c ∷ options) s h =
      rw (set_all_step c options s, options_loop_step fuel c options s)
        (option_result-Leaves vm path _ _ _ (passed c options s) _ _ (
          options_loop-set_all fuel (cut c options).1 (passed c options s)
            (omega (arith, get_token_shorter c options b','))))

-- A VM without `set_option` takes no options.
pub no_set_option :
    (vm : Vm) (path : Text) (fuel : ℕ) (options : Text) (s : Loader)
    → vm.set_option ≡ none
    → Leaves s
        (elim options [
          | [] ↦ (loader_success, s.history)
          | c ∷ t ↦ (invalid_option_name, s.history)
        ])
        (options_loop (suc fuel) vm path options s)
unfolding options_loop
no_set_option vm path fuel [] s h = (s, refl, refl, refl, λ e. refl)
no_set_option vm path fuel (c ∷ options) s h =
    subst⁻¹
      (λ m.
        Leaves s (invalid_option_name, s.history)
          (options_round m vm path (c ∷ options) (options_loop fuel vm path) s))
      h (_, refl, refl, refl, λ e. cc)
