-- ===== src/Loader/Create.antt =====
-- `evmc_load_and_create`
pub mod Laws
use mathlib.Core.Option
use evmc.Base.{[], ℕ, Option, none, some, ◌++◌, ◌∷◌, if◌then◌else◌}
use evmc.Base.Int.{pos}
use evmc.CString.{Text, text}
use evmc.CString.Decimal.{decimal}
use evmc.Helpers.Vm.{Vm, created, evmc_abi_version, evmc_is_abi_compatible, evmc_destroy}
use evmc.Loader.Types.{
  LoaderErrorCode, loader_success, vm_creation_failure, abi_version_mismatch, Loader, Platform, log,
  write_error_code,
}
use evmc.Loader.Message.{set_error}
use evmc.Loader.Load.{evmc_load}

-- `%s` of the file name, which is not null where a create function was found.
abbrev pub shown : Option Text → Text
shown none = []
shown (some filename) = filename

abbrev pub abi_message : Vm → Option Text → Text
abi_message vm filename =
    text "EVMC ABI version "
    ++ (decimal vm.abi_version
        ++ (text " of "
            ++ (shown filename
                ++ (text " mismatches the expected version " ++ decimal (pos evmc_abi_version)))))

-- `vm`, and the loader with `error_code` written.
abbrev pub exit : Option Vm → LoaderErrorCode × Loader → Option Vm × Loader
exit vm (ec, s) = (vm, write_error_code ec s)

abbrev pub destroy_vm : Vm → LoaderErrorCode × Loader → LoaderErrorCode × Loader
destroy_vm vm (ec, s) = (ec, record s { history = evmc_destroy vm s.history })

module _ (p : Platform) where
  -- The statements behind the call of `create_fn`.
  unfoldable pub check_vm : Option Text → Option Vm → Loader → Option Vm × Loader
  unfolding set_error evmc_is_abi_compatible evmc_destroy
  check_vm filename none s = exit none (
      set_error vm_creation_failure
        (text "creating EVMC VM of " ++ (shown filename ++ text " has failed")) s)
  check_vm filename (some vm) s =
      if evmc_is_abi_compatible vm
      then exit (some vm) (loader_success, s)
      else exit none (destroy_vm vm (set_error abi_version_mismatch (abi_message vm filename) s))

  -- The call of `create_fn`, which makes an instance or answers with null.
  unfoldable pub create_vm : ℕ → Option Text → Loader → Option Vm × Loader
  unfolding check_vm
  create_vm fn filename s =
      let vm = p.call_create_fn s.history fn in
      check_vm filename vm (log (created fn (Option.map (λ v. v.vm_pointer) vm)) s)

  unfoldable pub evmc_load_and_create : Text → Option Text → Loader → Option Vm × Loader
  unfolding evmc_load create_vm
  evmc_load_and_create array filename s =
      let r = evmc_load p array filename s in
      elim (r.create_fn) [ none ↦ (none, r.loader) | some fn ↦ create_vm fn filename r.loader ]
