-- ===== src/Loader/Configure/Passing.antt =====
-- The configuration of an instance that was made: the code, the calls, and the instance.
use evmc.Base.{
  ℕ, suc, ◌+◌, ◌≡◌, ◌≢◌, ◌↔◌, refl, Option, none, some, Option-cases, inl, inr, List, [], ◌∷◌,
  arith,
}
use mathlib.Core.Path.{subst⁻¹}
use evmc.CString.{Text, strlen}
use evmc.Helpers.Vm.{Vm, History, option_set}
use evmc.Loader.Types.{LoaderErrorCode, loader_success, invalid_option_name, Loader, Platform}
use evmc.Loader.Instances.{creations, destructions, held}
use evmc.Loader.Configure.{options_loop, finish, configure_vm, SetOption}
use evmc.Loader.Configure.Tokens.{tokens, parse_options}
use evmc.Loader.Configure.Loop.{set_all, Leaves, options_loop-set_all, no_set_option}

-- The code and the calls of passing all options of a text to a VM with this method.
abbrev pub pass_options : Option SetOption → Vm → History → Text → LoaderErrorCode × History
pass_options none vm h [] = (loader_success, h)
pass_options none vm h (c ∷ options) = (invalid_option_name, h)
pass_options (some f) vm h options = set_all vm f h (parse_options (tokens b',' options))

abbrev pub configured : Vm → History → Text → LoaderErrorCode × History
configured vm = pass_options vm.set_option vm

-- The loop passes the options and ends.
loop-Leaves :
    (vm : Vm) (path options : Text) (s : Loader)
    → Leaves s
        (configured vm s.history options)
        (options_loop (suc (strlen options)) vm path options s)
loop-Leaves vm path options s = elim (Option-cases vm.set_option) [
  | inl e ↦
      subst⁻¹
        (λ m.
          Leaves s (pass_options m vm s.history options)
            (options_loop (suc (strlen options)) vm path options s))
        e (no_method options e)
  | inr (f, e) ↦
      subst⁻¹
        (λ m.
          Leaves s (pass_options m vm s.history options)
            (options_loop (suc (strlen options)) vm path options s))
        e (options_loop-set_all vm path f e (suc (strlen options)) options s (omega arith))
]
  where
    no_method :
        (options : Text)
        → vm.set_option ≡ none
        → Leaves s
            (pass_options none vm s.history options)
            (options_loop (suc (strlen options)) vm path options s)
    no_method [] e = no_set_option vm path 0 [] s e
    no_method (c ∷ t) e = no_set_option vm path (suc (strlen t)) (c ∷ t) s e

set_all-instances :
    (vm : Vm) (f : SetOption) (k : ℕ) (os : List (Text × Text)) (h : History)
    → (creations k (set_all vm f h os).1 ≡ creations k h)
      × (destructions k (set_all vm f h os).1 ≡ destructions k h)
unfolding set_all creations destructions
set_all-instances vm f k [] h = (refl, refl)
set_all-instances vm f k ((name, value) ∷ os) h =
    ground (
      arith,
      set_all-instances vm f k os (option_set vm.vm_pointer name value (f h name value) ∷ h),
    )

pub configured-instances :
    (vm : Vm) (k : ℕ) (h : History) (options : Text)
    → (creations k (configured vm h options).1 ≡ creations k h)
      × (destructions k (configured vm h options).1 ≡ destructions k h)
configured-instances vm k h options = go vm.set_option options
  where
    go :
        (m : Option SetOption) (options : Text)
        → (creations k (pass_options m vm h options).1 ≡ creations k h)
          × (destructions k (pass_options m vm h options).1 ≡ destructions k h)
    go none [] = (refl, refl)
    go none (c ∷ t) = (refl, refl)
    go (some f) options = set_all-instances vm f k (parse_options (tokens b',' options)) h

-- `finish` returns the instance or destroys it.
pub finish-laws :
    (vm : Vm) (ec : LoaderErrorCode) (s : Loader) (k : ℕ)
    → let r = finish vm ec s in
      (creations k (r.1).history ≡ creations k s.history)
      × (destructions k (r.1).history + held k r.0 ≡ destructions k s.history + held k (some vm))
      × (s.error_code ≢ none → (r.1).error_code ≡ some ec)
      × ((r.0 ≡ none) ↔ (ec ≢ loader_success))
      × ((v : Vm)
          → r.0 ≡ some v
          → (v ≡ vm)
            × (ec ≡ loader_success)
            × ((r.1).last_error_msg ≡ s.last_error_msg)
            × ((r.1).history ≡ s.history))
unfolding finish creations destructions held
finish-laws vm loader_success s k = ground arith
finish-laws vm _ s k = ground arith

-- What the configuration of a created instance answers.
module _ (p : Platform) (path options : Text) (vm : Vm) (s : Loader) where
  abbrev spec : LoaderErrorCode × History
  spec = configured vm s.history options

  pub configure_vm-finish :
      (s' : Loader) × (configure_vm p path options (some vm, s) ≡ some (finish vm spec.0 s'))
      × (s'.history ≡ spec.1)
      × (s'.error_code ≡ s.error_code)
      × (spec.0 ≡ loader_success → s'.last_error_msg ≡ s.last_error_msg)
  configure_vm-finish =
      let (s', e, h, c, m) = loop-Leaves vm path options s in
      (s', unfold configure_vm in rw (e, configure_vm), h, c, m)
