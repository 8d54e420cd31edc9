-- ===== src/Loader/Configure/Answered.antt =====
-- The branches of `evmc_load_and_configure`, and what each promises of its answer.
use evmc.Base.{
  ℕ, ◌+◌, ◌≡◌, ◌≢◌, ◌<◌, ◌≤◌, ◌↔◌, refl, ap, sym, ◌∙◌, Option, none, some, Option-cases, inl, inr,
  length, arith, Bool-cases, true, false, leb, ltb,
}
use evmc.Base.Int.{pos}
use mathlib.Core.Path.{subst}
use evmc.CString.{Text, IsString}
use evmc.Helpers.Vm.{Vm, History, evmc_abi_version}
use evmc.Loader.Types.{
  LoaderErrorCode, loader_success, invalid_argument, Loader, Platform, null, write_error_code,
  path_max_length,
}
use evmc.Loader.Message.{set_error}
use evmc.Loader.Copy.Laws.{strcpy_sx_lem}
use evmc.Loader.Instances.{creations, destructions, held}
use evmc.Loader.Create.{evmc_load_and_create}
use evmc.Loader.Create.Laws.{
  evmc_load_and_create-instances, IsReady, evmc_load_and_create-IsReady, evmc_load_and_create-code,
}
use evmc.Loader.Configure.{
  get_token, finish, configure_vm, evmc_load_and_configure, too_long_config,
}
use evmc.Loader.Configure.Passing.{
  configured, configured-instances, finish-laws, configure_vm-finish,
}

-- The branches of `evmc_load_and_configure`.
module _ (p : Platform) (buffer array config : Text) (s : Loader)
    (size : length buffer ≡ path_max_length) (ok : IsString config) where
  abbrev pub call : Option (Option Vm × Loader)
  call = evmc_load_and_configure p buffer array config s

  abbrev pub path : Text
  path = (get_token config b',').0

  abbrev pub options : Text
  options = (get_token config b',').1

  pub fitting_config :
      length config < path_max_length
      → call ≡ configure_vm p path options (evmc_load_and_create p array (some path) s)
  unfolding evmc_load_and_configure
  fitting_config fits =
      let (r, c, _) = strcpy_sx_lem buffer path_max_length config (omega arith) (omega arith) ok in
      let e : ltb (length config) path_max_length ≡ true = ground arith in
      rw (rw e at r, rw e at c, evmc_load_and_configure)

  long_config :
      path_max_length ≤ length config
      → (s' : Loader) × (call ≡ some (none, s'))
        × (s'.history ≡ s.history)
        × (s.error_code ≢ none → s'.error_code ≡ some invalid_argument)
  unfolding evmc_load_and_configure
  long_config big =
      let (r, _, _) = strcpy_sx_lem buffer path_max_length config (omega arith) (omega arith) ok in
      let e : ltb (length config) path_max_length ≡ false = ground arith in
      let (ec, t) = set_error invalid_argument too_long_config s in
      (
        write_error_code ec t,
        rw (rw e at r, evmc_load_and_configure),
        unfold set_error in refl,
        unfold set_error in ground arith,
      )

  abbrev pub made : Option Vm × Loader
  made = evmc_load_and_create p array (some path) s

  -- All that the answer of a call promises, where it returns `r` and leaves `s'`.
  pub record Answered (r : Option Vm) (s' : Loader) : Type 0 where
    pub instances :
        (k : ℕ)
        → creations k s'.history + destructions k s.history
          ≡ destructions k s'.history + creations k s.history + held k r
    pub code : s.error_code ≢ none → ((r ≡ none) ↔ (s'.error_code ≢ some loader_success))
    pub instance_made :
        (vm : Vm)
        → r ≡ some vm
        → (length config < path_max_length)
          × (vm.abi_version ≡ pos evmc_abi_version)
          × (s'.last_error_msg ≡ null)
          × (made.0 ≡ some vm)
          × (configured vm (made.1).history options ≡ (loader_success, s'.history))

  Answered-long :
      (s' : Loader)
      → path_max_length ≤ length config
      → s'.history ≡ s.history
      → (s.error_code ≢ none → s'.error_code ≡ some invalid_argument)
      → Answered none s'
  unfolding held
  Answered-long s' big h c = record {
    instances = λ k. ground arith;
    code = λ e. ground (arith, c e);
    instance_made = λ vm e. ground arith;
  }

  Answered-none : made.0 ≡ none → Answered none made.1
  Answered-none e = record {
    instances = λ k. ground (arith, evmc_load_and_create-instances p array (some path) s k);
    code = λ c. ground (arith, evmc_load_and_create-code p array (some path) s c);
    instance_made = λ vm e. ground arith;
  }

  -- The instance `vm` was made; the options are passed, and the call finishes from `t`.
  module _ (vm : Vm) (e : made.0 ≡ some vm) (fits : length config < path_max_length) where
    ready : (vm.abi_version ≡ pos evmc_abi_version) × ((made.1).last_error_msg ≡ null)
    ready = subst (λ v. IsReady v made.1) e (evmc_load_and_create-IsReady p array (some path) s)

    abbrev given : LoaderErrorCode × History
    given = configured vm (made.1).history options

    Answered-some :
        (t : Loader)
        → t.history ≡ given.1
        → t.error_code ≡ (made.1).error_code
        → (given.0 ≡ loader_success → t.last_error_msg ≡ (made.1).last_error_msg)
        → Answered (finish vm given.0 t).0 (finish vm given.0 t).1
    Answered-some t h c m = record {
      instances = λ k. ground (
        arith,
        evmc_load_and_create-instances p array (some path) s k,
        configured-instances vm k (made.1).history options,
        finish-laws vm given.0 t k,
      );
      code = λ g.
          ground
            (arith, evmc_load_and_create-code p array (some path) s g, finish-laws vm given.0 t 0);
      instance_made = λ v r.
          let (same, done, no_message, kept) = ((finish-laws vm given.0 t 0).4 v r) in
          let (abi, clear) = ready in
          (
            fits,
            ap (λ (w : Vm). w.abi_version) same ∙ abi,
            no_message ∙ m done ∙ clear,
            e ∙ ap some (sym same),
            ap (λ (w : Vm). configured w (made.1).history options) same ∙ ground arith,
          );
    }

  pub answered : (r : Option Vm) × (s' : Loader) × (call ≡ some (r, s')) × Answered r s'
  answered = elim (Bool-cases (leb path_max_length (length config))) [
    | inl big ↦
        let (s', e, h, c) = long_config (ground arith) in
        (none, s', e, Answered-long s' (ground arith) h c)
    | inr small ↦
        let fits : length config < path_max_length = ground arith in
        elim (Option-cases made.0) [
          | inl e ↦ (
            none,
            made.1,
            fitting_config fits
                ∙ ap (λ (v : Option Vm). configure_vm p path options (v, made.1)) e
                ∙ (unfold configure_vm in refl),
            Answered-none e,
          )
          | inr (vm, e) ↦
              let (t, done, h, c, m) = configure_vm-finish p path options vm made.1 in
              (
                (finish vm (given vm e fits).0 t).0,
                (finish vm (given vm e fits).0 t).1,
                fitting_config fits
                    ∙ ap (λ (v : Option Vm). configure_vm p path options (v, made.1)) e
                    ∙ done,
                Answered-some vm e fits t h c m,
              )
        ]
  ]
