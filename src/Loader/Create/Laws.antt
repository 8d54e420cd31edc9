-- ===== src/Loader/Create/Laws.antt =====
-- What `evmc_load_and_create` answers, and which instances it leaves.
use mathlib.Core.Option
use evmc.Base.{ℕ, ◌+◌, ◌≡◌, ◌≢◌, ◌↔◌, Option, none, some, arith, Option-cases, Bool-cases, inl, inr}
use evmc.Base.Int.{pos, eq_ℤ, eq_ℤ_iff}
use evmc.CString.{Text}
use evmc.Helpers.Vm.{Vm, evmc_abi_version}
use evmc.Loader.Types.{
  LoaderErrorCode, loader_success, vm_creation_failure, abi_version_mismatch, null, Loader,
  Platform,
}
use evmc.Loader.Load.{evmc_load}
use evmc.Loader.Load.Laws.{evmc_load-ec, evmc_load-message}
use evmc.Loader.Create.{check_vm, create_vm, evmc_load_and_create}
use evmc.Loader.Instances.{creations, destructions, held}

module _ (p : Platform) (array : Text) (filename : Option Text) (s : Loader) where
  load_keeps_instances :
      (k : ℕ)
      → (creations k (evmc_load p array filename s).loader.history ≡ creations k s.history)
        × (destructions k (evmc_load p array filename s).loader.history ≡ destructions k s.history)
  unfolding evmc_load creations destructions
  load_keeps_instances k = ground arith

module _ (p : Platform) (fn : ℕ) (filename : Option Text) (s : Loader) where
  create_vm-instances :
      (k : ℕ)
      → let r = create_vm p fn filename s in
        creations k (r.1).history + destructions k s.history
        ≡ destructions k (r.1).history + creations k s.history + held k r.0
  unfolding create_vm creations destructions held
  create_vm-instances k = ground arith

  create_vm-code :
      let r = create_vm p fn filename s in
      s.error_code ≢ none → ((r.0 ≡ none) ↔ ((r.1).error_code ≢ some loader_success))
  unfolding create_vm
  create_vm-code asked = ground arith

-- A code that is that of success exactly with an instance is written in the caller's place for it, if
-- there is one.
abbrev pub HasCode : Option LoaderErrorCode → Option Vm → Loader → Type 0
HasCode place vm s =
    (ec : LoaderErrorCode) × (s.error_code ≡ Option.map (λ old. ec) place)
    × ((vm ≡ none) ↔ (ec ≢ loader_success))

check_vm-HasCode :
    (p : Platform) (filename : Option Text) (vm : Option Vm) (s : Loader)
    → HasCode s.error_code (check_vm p filename vm s).0 (check_vm p filename vm s).1
unfolding check_vm
check_vm-HasCode p filename none s = (vm_creation_failure, ground arith, ground arith)
check_vm-HasCode p filename (some vm) s =
    elim (Bool-cases (eq_ℤ vm.abi_version (pos evmc_abi_version))) [
      | inl e ↦ (loader_success, ground arith, ground arith)
      | inr e ↦ (abi_version_mismatch, ground arith, ground arith)
    ]

create_vm-HasCode :
    (p : Platform) (fn : ℕ) (filename : Option Text) (s : Loader)
    → HasCode s.error_code (create_vm p fn filename s).0 (create_vm p fn filename s).1
unfolding create_vm
create_vm-HasCode p fn filename s = check_vm-HasCode p filename (p.call_create_fn s.history fn) _

-- A returned instance has the ABI version of the library, and no message is left with it.
abbrev pub IsReady : Option Vm → Loader → Type 0
IsReady none s = Unit
IsReady (some vm) s = (vm.abi_version ≡ pos evmc_abi_version) × (s.last_error_msg ≡ null)

check_vm-IsReady :
    (p : Platform) (filename : Option Text) (vm : Option Vm) (s : Loader)
    → s.last_error_msg ≡ null
    → IsReady (check_vm p filename vm s).0 (check_vm p filename vm s).1
check_vm-IsReady p filename none s clear = unfold check_vm in tt
check_vm-IsReady p filename (some vm) s clear =
    elim (Bool-cases (eq_ℤ vm.abi_version (pos evmc_abi_version))) [
      | inl e ↦
          unfold check_vm in
          rw (e, check_vm) ((eq_ℤ_iff vm.abi_version (pos evmc_abi_version)).0 e, clear)
      | inr e ↦ unfold check_vm in rw (e, check_vm) tt
    ]

create_vm-IsReady :
    (p : Platform) (fn : ℕ) (filename : Option Text) (s : Loader)
    → s.last_error_msg ≡ null
    → IsReady (create_vm p fn filename s).0 (create_vm p fn filename s).1
unfolding create_vm
create_vm-IsReady p fn filename s clear =
    check_vm-IsReady p filename (p.call_create_fn s.history fn) _ clear

module _ (p : Platform) (array : Text) (filename : Option Text) (s : Loader) where
  abbrev outcome : Option Vm × Loader
  outcome = evmc_load_and_create p array filename s

  -- Every instance that the call makes is returned or destroyed, once: the instances made and not
  -- destroyed are those before the call and the one that is returned.
  pub evmc_load_and_create-instances :
      (k : ℕ)
      → creations k (outcome.1).history + destructions k s.history
        ≡ destructions k (outcome.1).history + creations k s.history + held k outcome.0
  unfolding evmc_load_and_create held
  evmc_load_and_create-instances k = elim (Option-cases (evmc_load p array filename s).create_fn) [
    | inl e ↦ ground (arith, load_keeps_instances p array filename s k)
    | inr (fn, e) ↦ ground (
      arith,
      load_keeps_instances p array filename s k,
      create_vm-instances p fn filename (evmc_load p array filename s).loader k,
    )
  ]

  pub evmc_load_and_create-IsReady : IsReady outcome.0 outcome.1
  unfolding evmc_load_and_create
  evmc_load_and_create-IsReady = elim (Option-cases (evmc_load p array filename s).create_fn) [
    | inl e ↦ ground arith
    | inr (fn, e) ↦ ground (
      arith,
      evmc_load-ec p array filename s,
      evmc_load-message p array filename s,
      create_vm-IsReady p fn filename (evmc_load p array filename s).loader,
    )
  ]

  pub evmc_load_and_create-code :
      s.error_code ≢ none → ((outcome.0 ≡ none) ↔ ((outcome.1).error_code ≢ some loader_success))
  unfolding evmc_load_and_create
  evmc_load_and_create-code asked = elim (Option-cases (evmc_load p array filename s).create_fn) [
    | inl e ↦ ground (arith, evmc_load-ec p array filename s)
    | inr (fn, e) ↦ ground (
      arith,
      evmc_load-ec p array filename s,
      create_vm-code p fn filename (evmc_load p array filename s).loader,
    )
  ]

  evmc_load_and_create-HasCode : HasCode s.error_code outcome.0 outcome.1
  unfolding evmc_load_and_create
  evmc_load_and_create-HasCode =
      let load = evmc_load p array filename s in
      let (found, written) = evmc_load-ec p array filename s in
      elim (Option-cases load.create_fn) [
        | inl e ↦ (load.ec, ground (arith, found, written), ground (arith, found, written))
        | inr (fn, e) ↦
            let (ec, w, c) = create_vm-HasCode p fn filename load.loader in
            (ec, ground (arith, written, w), ground (arith, c))
      ]

  -- For every caller, a returned instance has the ABI version of the library, and no message is left
  -- with it. Where the caller gave a place for a code, the one that is written is that of success
  -- exactly if an instance is returned; where it gave none, none is written.
  pub evmc_load_and_create-answer :
      IsReady outcome.0 outcome.1 × HasCode s.error_code outcome.0 outcome.1
  evmc_load_and_create-answer = (evmc_load_and_create-IsReady, evmc_load_and_create-HasCode)
