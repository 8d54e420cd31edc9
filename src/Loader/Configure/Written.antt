-- ===== src/Loader/Configure/Written.antt =====
-- `evmc_load_and_configure` on a configuration that is written from a path and options.
use evmc.Base.{
  ℕ, ◌≡◌, ◌≢◌, ◌<◌, ◌↔◌, refl, ap, sym, ◌∙◌, Option, none, some, List, [], ◌∷◌, length, arith,
}
use mathlib.Core.Path.{subst}
use evmc.CString.{Text, IsString}
use evmc.CString.Laws.{Avoids}
use evmc.Helpers.Vm.{Vm, History}
use evmc.Loader.Types.{
  LoaderErrorCode, loader_success, Loader, Platform, path_max_length, write_error_code,
}
use evmc.Loader.Create.{evmc_load_and_create}
use evmc.Loader.Configure.{get_token, evmc_load_and_configure, configure_vm, finish, SetOption}
use evmc.Loader.Configure.Tokens.{tokens, tokens-get_token, parse_options}
use evmc.Loader.Configure.Loop.{set_all}
use evmc.Loader.Configure.Passing.{pass_options, configured, configure_vm-finish}
use evmc.Loader.Configure.RoundTrip.{config_text, AreOptions, behind_comma, config_text-read}
use evmc.Loader.Configure.Answered.{answered, fitting_config}
use evmc.Loader.Configure.Laws.{AllSet, pass_options-AllSet}

-- Options that the method takes one by one are passed.
AllSet-set_all :
    (vm : Vm) (f : SetOption) (h h' : History) (os : List (Text × Text))
    → AllSet (some f) vm h os h'
    → set_all vm f h os ≡ (loader_success, h')
unfolding set_all
AllSet-set_all vm f h h' [] all = ap (λ (x : History). (loader_success, x)) (sym all)
AllSet-set_all vm f h h' ((name, value) ∷ os) (g, e, taken, all) =
    let same : f ≡ g = cc e in
    let taken : f h name value ≡ _ = ap (λ (k : SetOption). k h name value) same ∙ taken in
    rw (taken, set_all) (AllSet-set_all vm f _ h' os all)

parse_options_nonempty : (c : ℕ) (options : Text) → parse_options (tokens b',' (c ∷ options)) ≢ []
unfolding parse_options
parse_options_nonempty c options e = let found = rw tokens-get_token at e in cc found

no_method :
    (vm : Vm) (h h' : History) (os : List (Text × Text)) → os ≢ [] → ¬ AllSet none vm h os h'
no_method vm h h' [] some_there all = some_there refl
no_method vm h h' ((name, value) ∷ os) some_there (f, e, _, _) = cc e

AllSet-pass_options :
    (m : Option SetOption) (vm : Vm) (h h' : History) (options : Text)
    → AllSet m vm h (parse_options (tokens b',' options)) h'
    → pass_options m vm h options ≡ (loader_success, h')
AllSet-pass_options none vm h h' [] all = unfold tokens parse_options in ground (arith, all)
AllSet-pass_options none vm h h' (c ∷ options) all =
    absurd (no_method vm h h' _ (parse_options_nonempty c options) all)
AllSet-pass_options (some f) vm h h' options all = AllSet-set_all vm f h h' _ all

module _ (p : Platform) (buffer array path : Text) (os : List (Text × Text)) (s : Loader) where
  abbrev made : Option Vm × Loader
  made = evmc_load_and_create p array (some path) s

  abbrev call : Option (Option Vm × Loader)
  call = evmc_load_and_configure p buffer array (config_text path os) s

  taken_options :
      (vm : Vm) (h : History)
      → length buffer ≡ path_max_length
      → IsString (config_text path os)
      → length (config_text path os) < path_max_length
      → Avoids b',' path
      → AreOptions os
      → made.0 ≡ some vm
      → AllSet vm.set_option vm (made.1).history os h
      → (t : Loader) × (call ≡ some (some vm, t)) × (t.history ≡ h)
  taken_options vm h size ok fits hp ho e all =
      let (read, parsed) = config_text-read path os hp ho in
      let (t, done, left, _, _) = configure_vm-finish p path (behind_comma os) vm made.1 in
      let passed : configured vm (made.1).history (behind_comma os) ≡ (loader_success, h) =
        AllSet-pass_options vm.set_option vm _ h (behind_comma os) (rw parsed all) in
      let here : call ≡ configure_vm p path (behind_comma os) made =
        fitting_config p buffer array (config_text path os) s size ok fits
        ∙ ap
            (λ (q : Text × Text).
              configure_vm p q.0 q.1 (evmc_load_and_create p array (some q.0) s))
            read in
      (
        write_error_code loader_success t,
        here
            ∙ ap (λ (v : Option Vm). configure_vm p path (behind_comma os) (v, made.1)) e
            ∙ done
            ∙ ap (λ (c : LoaderErrorCode × History). some (finish vm c.0 t)) passed
            ∙ (unfold finish in refl),
        left ∙ ap (λ (c : LoaderErrorCode × History). c.1) passed,
      )

  -- The options of a text are taken by the instance that is made for a path.
  abbrev Read : Text × Text → Vm → History → Type 0
  Read (path, options) vm h =
      let made = evmc_load_and_create p array (some path) s in
      (made.0 ≡ some vm)
      × AllSet vm.set_option vm (made.1).history (parse_options (tokens b',' options)) h

  -- For a configuration that is a string, shorter than PATH_MAX_LENGTH, and written as a path
  -- without ',' and, behind a ',' each, options `name=value` with no ',' in them and no '=' in a
  -- name, the call ends with an answer; it returns the instance `vm` and leaves the calls `h`
  -- exactly if `evmc_load_and_create` makes `vm` for that path and, from there on, the method of
  -- `vm` takes those very options, one by one in their order, with `h` as the calls after the last.
  -- `buffer` is what the array for the copy holds at first.
  pub configure-written :
      (vm : Vm) (h : History)
      → length buffer ≡ path_max_length
      → IsString (config_text path os)
      → length (config_text path os) < path_max_length
      → Avoids b',' path
      → AreOptions os
      → (r : Option Vm) × (s' : Loader) × (evmc_load_and_configure p buffer array
            (config_text path os)
            s
          ≡ some (r, s'))
        × (((r ≡ some vm) × (s'.history ≡ h))
            ↔ ((made.0 ≡ some vm) × AllSet vm.set_option vm (made.1).history os h))
  configure-written vm h size ok fits hp ho =
      let config = config_text path os in
      let (read, parsed) = config_text-read path os hp ho in
      let (r, s', e, a) = answered p buffer array config s size ok in
      (
        r,
        s',
        e,
        (
          (λ (returned, same).
              let (_, _, _, made_it, passed) = a.instance_made vm returned in
              let read_it : Read (get_token config b',') vm s'.history =
                (made_it, pass_options-AllSet vm.set_option vm _ s'.history _ passed) in
              let (made_it, all) = subst (λ q. Read q vm s'.history) read read_it in
              (made_it, rw (sym parsed, sym same) all)),
          (λ (made_it, all).
              let (t, e', kept) = taken_options vm h size ok fits hp ho made_it all in
              let both : some (r, s') ≡ some (some vm, t) = sym e ∙ e' in
              let r_is : r ≡ some vm = cc both in
              let t_is : s' ≡ t = cc both in (r_is, ap (λ (l : Loader). l.history) t_is ∙ kept)),
        ),
      )
