-- ===== src/Helpers/Vm.antt =====
-- `struct evmc_vm`, the calls that leave EVMC, and the helpers on a VM instance.
use Prim.Native.Nat.{bit_and}
use evmc.Base.{ℕ, Bool, not, Option, none, some, List, ◌∷◌, ◌==◌}
use evmc.Base.Int.{ℤ, pos, eq_ℤ}
use evmc.CString.{Text}

-- `enum evmc_set_option_result`. `other n` is the value 3 + n, which no enumerator has.
pub data SetOptionResult : Type 0 where
  set_option_success set_option_invalid_name set_option_invalid_value : SetOptionResult
  set_option_other : ℕ → SetOptionResult

-- A call of code outside EVMC with its answer. Handles, create functions and VM instances are known
-- by a number, the pointer; `none` is the null pointer.
pub data Event : Type 0 where
  -- `DLL_OPEN(filename)`
  opened : Text → Option ℕ → Event
  -- `DLL_GET_ERROR_MSG()`
  got_error : Option Text → Event
  -- `DLL_GET_CREATE_FN(handle, name)`
  looked_up : ℕ → Text → Option ℕ → Event
  -- `DLL_CLOSE(handle)`
  closed : ℕ → Event
  -- `create_fn()`
  created : ℕ → Option ℕ → Event
  -- `vm->set_option(vm, name, value)`
  option_set : ℕ → Text → Text → SetOptionResult → Event
  -- `vm->destroy(vm)`
  destroyed : ℕ → Event

-- All calls so far, the latest first. What outside code answers may depend on all of them.
abbrev pub History : Type 0
History = List Event

-- `struct evmc_vm`. `vm_pointer` is the address of the instance. `execute` takes no part in the loader.
pub record Vm : Type 0 where
  pub vm_pointer : ℕ
  pub abi_version : ℤ
  pub name : Text
  pub version : Text
  pub get_capabilities : History → ℕ
  pub set_option : Option (History → Text → Text → SetOptionResult)

abbrev pub evmc_abi_version : ℕ
evmc_abi_version = 12

unfoldable pub evmc_is_abi_compatible : Vm → Bool
evmc_is_abi_compatible vm = eq_ℤ vm.abi_version (pos evmc_abi_version)

unfoldable pub evmc_vm_name : Vm → Text
evmc_vm_name vm = vm.name

unfoldable pub evmc_vm_version : Vm → Text
evmc_vm_version vm = vm.version

-- `enum evmc_capabilities`, one bit each.
pub data Capability : Type 0 where
  evm1 ewasm precompiles : Capability

unfoldable pub capability_flag : Capability → ℕ
capability_flag evm1 = 1
capability_flag ewasm = 2
capability_flag precompiles = 4

unfoldable pub evmc_vm_has_capability : Vm → Capability → History → Bool
unfolding capability_flag
evmc_vm_has_capability vm c h = not (bit_and (vm.get_capabilities h) (capability_flag c) == 0)

unfoldable pub evmc_destroy : Vm → History → History
evmc_destroy vm h = destroyed vm.vm_pointer ∷ h

-- The answer and the calls made; a VM with no `set_option` method is not called.
unfoldable pub evmc_set_option : Vm → Text → Text → History → SetOptionResult × History
evmc_set_option vm name value h = elim (vm.set_option) [
  | none ↦ (set_option_invalid_name, h)
  | some f ↦ let r = f h name value in (r, option_set vm.vm_pointer name value r ∷ h)
]
