-- ===== src/ExampleVm/Options.antt =====
-- The instance of the example VM, and its methods `get_capabilities` and `set_option`.
use evmc.Base.{
  ℕ, ◌≡◌, ◌⊎◌, arith, Bool, true, false, ◌||◌, Option, none, some, ◌==◌, if◌then◌else◌, ◌&&◌, [],
  ◌∷◌,
}
use evmc.Base.Int.{ℤ, pos, negsuc, lt_ℤ}
use evmc.CString.{Text, text}
use evmc.Helpers.Vm.{
  Vm, evmc_abi_version, SetOptionResult, set_option_success, set_option_invalid_name,
  set_option_invalid_value, capability_flag, evm1,
}

-- The member that the structure adds to `evmc_vm`.
pub record ExampleVm : Type 0 where
  pub verbose : ℤ

abbrev pub new_vm : ExampleVm
new_vm = record { verbose = pos 0 }

unfoldable pub get_capabilities : ExampleVm → ℕ
unfolding capability_flag
get_capabilities vm = capability_flag evm1

-- `strcmp(a, b) == 0`
unfoldable pub same_text : Text → Text → Bool
same_text [] [] = true
same_text [] (c ∷ b) = false
same_text (c ∷ a) [] = false
same_text (c ∷ a) (d ∷ b) = c == d && same_text a b

-- `strtol` answers with the number and the count of the bytes that it has read.
module _ (strtol : Text → ℤ × ℕ) where
  unfoldable pub set_option : ExampleVm → Text → Option Text → SetOptionResult × ExampleVm
  unfolding same_text
  set_option vm name value =
      if same_text name (text "verbose")
      then elim value [
        | none ↦ (set_option_invalid_value, vm)
        | some value ↦
            let (v, read) = strtol value in
            if read == 0
            then (set_option_invalid_value, vm)
            else if lt_ℤ (pos 9) v || lt_ℤ v (negsuc 0)
            then (set_option_invalid_value, vm)
            else (set_option_success, record vm { verbose = v })
      ]
      else (set_option_invalid_name, vm)

  -- `ExampleVM::ExampleVM`, as an instance that the loader calls. What `set_option` answers does not
  -- depend on the options set before.
  unfoldable pub example_vm : ℕ → Text → Vm
  unfolding set_option get_capabilities
  example_vm address project_version = record {
    vm_pointer = address;
    abi_version = pos evmc_abi_version;
    name = text "example_vm";
    version = project_version;
    get_capabilities = λ h. get_capabilities new_vm;
    set_option = some λ h name value. (set_option new_vm name (some value)).0;
  }

  -- The verbosity is at least -1 and at most 9.
  abbrev pub IsVerbosity : ℤ → Type 0
  IsVerbosity v = (lt_ℤ (pos 9) v ≡ false) × (lt_ℤ v (negsuc 0) ≡ false)

  -- Whatever is given for an option, of an instance with a verbosity in its range: the verbosity stays
  -- in the range, and only an answer of success changes it.
  pub set_option-IsVerbosity :
      (vm : ExampleVm) (name : Text) (value : Option Text)
      → IsVerbosity vm.verbose
      → let r = set_option vm name value in
        IsVerbosity r.1.verbose × ((r.0 ≡ set_option_success) ⊎ (r.1 ≡ vm))
  unfolding set_option
  set_option-IsVerbosity vm name value ok = ground arith
