-- ===== src/Loader/Configure/Laws.antt =====
-- What a caller of `evmc_load_and_configure` can rely on.
use evmc.Base.{
  ℕ, ◌+◌, ◌≡◌, ◌≢◌, ◌<◌, ◌↔◌, refl, ap, sym, ◌∙◌, Option, none, some, List, [], ◌∷◌, length, arith,
}
use evmc.CString.{Text, IsString}
use evmc.Helpers.Vm.{
  Vm, History, SetOptionResult, set_option_success, set_option_invalid_name,
  set_option_invalid_value, set_option_other, option_set,
}
use evmc.Loader.Types.{LoaderErrorCode, loader_success, Loader, Platform, path_max_length}
use evmc.Loader.Instances.{creations, destructions, held}
use evmc.Loader.Create.{evmc_load_and_create}
use evmc.Loader.Create.Laws.{IsReady}
use evmc.Loader.Configure.{get_token, evmc_load_and_configure, SetOption}
use evmc.Loader.Configure.Tokens.{tokens, parse_options}
use evmc.Loader.Configure.Loop.{judge, set_all}
use evmc.Loader.Configure.Passing.{pass_options}
use evmc.Loader.Configure.Answered.{Answered, answered}

-- The method is given the options in this order and takes each: the calls before, and after.
abbrev pub AllSet : Option SetOption → Vm → History → List (Text × Text) → History → Type 0
AllSet m vm h [] h' = h' ≡ h
AllSet m vm h ((name, value) ∷ os) h' =
    (f : SetOption) × (m ≡ some f)
    × (f h name value ≡ set_option_success)
    × AllSet m vm (option_set vm.vm_pointer name value set_option_success ∷ h) os h'

judged :
    (r : SetOptionResult) (h : History) (rest : LoaderErrorCode × History) {h' : History}
    → judge r h rest ≡ (loader_success, h')
    → (r ≡ set_option_success) × (rest ≡ (loader_success, h'))
judged set_option_success h rest e = (refl, e)
judged set_option_invalid_name h rest e = ground arith
judged set_option_invalid_value h rest e = ground arith
judged (set_option_other n) h rest e = ground arith

set_all-AllSet :
    (vm : Vm) (f : SetOption) (h h' : History) (os : List (Text × Text))
    → set_all vm f h os ≡ (loader_success, h')
    → AllSet (some f) vm h os h'
unfolding set_all
set_all-AllSet vm f h h' [] e = ground arith
set_all-AllSet vm f h h' ((name, value) ∷ os) e =
    let (taken, rest) = judged (f h name value) _ _ e in
    (
      f,
      refl,
      taken,
      set_all-AllSet vm f _ h' os (
          ap (λ r. set_all vm f (option_set vm.vm_pointer name value r ∷ h) os) (sym taken) ∙ rest),
    )

pub pass_options-AllSet :
    (m : Option SetOption) (vm : Vm) (h h' : History) (options : Text)
    → pass_options m vm h options ≡ (loader_success, h')
    → AllSet m vm h (parse_options (tokens b',' options)) h'
pass_options-AllSet none vm h h' [] e = unfold tokens parse_options in ground arith
pass_options-AllSet none vm h h' (c ∷ options) e = ground arith
pass_options-AllSet (some f) vm h h' options e = set_all-AllSet vm f h h' _ e

module _ (p : Platform) (buffer array config : Text) (s : Loader) where
  -- Whatever the configuration, the call ends with an answer, and every instance made on the way is
  -- returned or destroyed, once: for each pointer `k`, the instances made and not destroyed are those
  -- before the call and the returned one. The configuration is a string, and `buffer` is what the
  -- array of PATH_MAX_LENGTH bytes for the copy holds at first.
  pub configure-instances :
      (k : ℕ)
      → length buffer ≡ path_max_length
      → IsString config
      → (r : Option Vm) × (s' : Loader) × (evmc_load_and_configure p buffer array config s
          ≡ some (r, s'))
        × (creations k s'.history + destructions k s.history
            ≡ destructions k s'.history + creations k s.history + held k r)
  configure-instances k size ok =
      let (r, s', e, a) = answered p buffer array config s size ok in (r, s', e, a.instances k)

  ready :
      (size : length buffer ≡ path_max_length) (ok : IsString config) (r : Option Vm) (s' : Loader)
      → Answered p buffer array config s size ok r s'
      → IsReady r s'
  ready size ok none s' a = tt
  ready size ok (some vm) s' a = let i = a.instance_made vm refl in (i.1, i.2)

  -- On a configuration that is a string, and with any contents of the array for its copy, the call of
  -- a caller that asks for a code ends with an answer. The code is that of success
  -- exactly if an instance is returned; a returned instance has the ABI version of the library, and
  -- no message is left with it.
  pub configure-answer :
      length buffer ≡ path_max_length
      → IsString config
      → s.error_code ≢ none
      → (r : Option Vm) × (s' : Loader) × (evmc_load_and_configure p buffer array config s
          ≡ some (r, s'))
        × ((r ≡ none) ↔ (s'.error_code ≢ some loader_success))
        × IsReady r s'
  configure-answer size ok asked =
      let (r, s', e, a) = answered p buffer array config s size ok in
      (r, s', e, a.code asked, ready size ok r s' a)

  -- If an instance is returned for a configuration that is a string, with any contents of the array
  -- for its copy, the configuration is shorter than PATH_MAX_LENGTH, the instance is
  -- the one that `evmc_load_and_create` makes for the text before the first ',', and its method was
  -- given the options behind it in their order, each split at its first '=', and took every one.
  pub configure-options :
      (vm : Vm) (s' : Loader)
      → length buffer ≡ path_max_length
      → IsString config
      → evmc_load_and_configure p buffer array config s ≡ some (some vm, s')
      → let (path, options) = get_token config b',' in
        let made = evmc_load_and_create p array (some path) s in
        (length config < path_max_length)
        × (made.0 ≡ some vm)
        × AllSet vm.set_option vm (made.1).history (parse_options (tokens b',' options)) s'.history
  configure-options vm s' size ok returned =
      let (r, t, e, a) = answered p buffer array config s size ok in
      let same : some (r, t) ≡ some (some vm, s') = sym e ∙ returned in
      let r_is : r ≡ some vm = cc same in
      let t_is : t ≡ s' = cc same in
      let (fits, _, _, made_it, passed) = a.instance_made vm r_is in
      (
        fits,
        made_it,
        pass_options-AllSet vm.set_option vm _ s'.history _
            (passed ∙ ap (λ (l : Loader). (loader_success, l.history)) t_is),
      )
