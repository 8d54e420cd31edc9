-- ===== src/Loader/Configure.antt =====
-- `get_token` and `evmc_load_and_configure`
pub mod Tokens
pub mod Loop
pub mod RoundTrip
pub mod Passing
pub mod Answered
pub mod Laws
pub mod Written
use evmc.Base.{
  ℕ, zero, suc, ◌+◌, ◌==◌, Option, none, some, [], ◌∷◌, ◌++◌, take, drop, if◌then◌else◌,
}
use evmc.Base.Int.{pos}
use evmc.CString.{Text, text, cstr, strlen, strchr}
use evmc.CString.Decimal.{decimal}
use evmc.Helpers.Vm.{
  Vm, History, SetOptionResult, set_option_success, set_option_invalid_name,
  set_option_invalid_value, set_option_other, option_set, evmc_destroy,
}
use evmc.Loader.Types.{
  LoaderErrorCode, loader_success, invalid_argument, invalid_option_name, invalid_option_value,
  Loader, Platform, path_max_length, log, write_error_code,
}
use evmc.Loader.Copy.{strcpy_sx}
use evmc.Loader.Message.{set_error}
use evmc.Loader.Create.{evmc_load_and_create}

-- The string that `*str_ptr` points to: the token, and the string that it points to afterwards.
unfoldable pub get_token : Text → ℕ → Text × Text
unfolding strchr
get_token str delim = elim (strchr str delim) [
  | some i ↦ (take i str, drop (suc i) str)
  | none ↦ (str, [])
]

-- The outcome of the options loop: `ec` where it is left, or no fuel.
pub data Outcome : Type 0 where
  left : LoaderErrorCode → Loader → Outcome
  stuck : Outcome

abbrev pub leave : LoaderErrorCode × Loader → Outcome
leave (ec, s) = left ec s

-- `"%s (%s)"` with the name of the VM and its path.
abbrev pub vm_and_path : Vm → Text → Text → Text
vm_and_path vm path rest = vm.name ++ (text " (" ++ (path ++ (text ")" ++ rest)))

-- The `switch (r)`; `next` is the rest of the loop.
unfoldable pub option_result :
    Vm → Text → Text → Text → SetOptionResult → (Loader → Outcome) → Loader → Outcome
unfolding set_error
option_result vm path name value set_option_success next s = next s
option_result vm path name value set_option_invalid_name next s = leave (
    set_error invalid_option_name
      (vm_and_path vm path (text ": unknown option '" ++ (name ++ text "'"))) s)
option_result vm path name value set_option_invalid_value next s = leave (
    set_error invalid_option_value
      (vm_and_path vm path
        (text ": unsupported value '" ++ (value ++ (text "' for option '" ++ (name ++ text "'")))))
      s)
option_result vm path name value (set_option_other n) next s = leave (
    set_error invalid_option_value
      (vm_and_path vm path (
        text ": unknown error when setting value '"
        ++ (value ++ (text "' for option '" ++ (name ++ text "'")))))
      s)

-- `evmc_vm::set_option`
abbrev pub SetOption : Type 0
SetOption = History → Text → Text → SetOptionResult

-- The body of the loop, with the method of the VM; `next` is the rest of the loop.
unfoldable pub options_round :
    Option SetOption → Vm → Text → Text → (Text → Loader → Outcome) → Loader → Outcome
unfolding get_token option_result set_error
options_round none vm path options next s =
    leave
      (set_error invalid_option_name (vm_and_path vm path (text " does not support any options")) s)
options_round (some set_option) vm path options next s =
    let (option, rest) = get_token options b',' in
    let (name, value) = get_token option b'=' in
    let r = set_option s.history name value in
    option_result vm path name value r (next rest) (log (option_set vm.vm_pointer name value r) s)

-- `while (strlen(options) != 0)` with fuel.
unfoldable pub options_loop : ℕ → Vm → Text → Text → Loader → Outcome
unfolding options_round
options_loop zero vm path options s = stuck
options_loop (suc fuel) vm path [] s = left loader_success s
options_loop (suc fuel) vm path (c ∷ options) s =
    options_round vm.set_option vm path (c ∷ options) (options_loop fuel vm path) s

-- The statements from `exit` on, for a VM that was created.
unfoldable pub finish : Vm → LoaderErrorCode → Loader → Option Vm × Loader
unfolding evmc_destroy
finish vm loader_success s = (some vm, write_error_code loader_success s)
finish vm ec s =
    let s = write_error_code ec s in (none, record s { history = evmc_destroy vm s.history })

abbrev pub too_long_config : Text
too_long_config =
    text "invalid argument: configuration is too long (maximum allowed length is "
    ++ (decimal (pos path_max_length) ++ text ")")

module _ (p : Platform) where
  -- The statements behind the call of `evmc_load_and_create`. One round of the loop for each byte of
  -- the options, and one to see their end, are enough.
  unfoldable pub configure_vm : Text → Text → Option Vm × Loader → Option (Option Vm × Loader)
  unfolding options_loop finish
  configure_vm path options (none, s) = some (none, s)
  configure_vm path options (some vm, s) =
      elim (options_loop (suc (strlen options)) vm path options s) [
        | left ec s' ↦ some (finish vm ec s')
        | stuck ↦ none
      ]

  -- `buffer` and `array` are what the two uninitialised arrays, `config_copy_buffer` here and
  -- `prefixed_name` in `evmc_load`, hold. `none` if the loop runs out of fuel.
  unfoldable pub evmc_load_and_configure : Text → Text → Text → Loader → Option (Option Vm × Loader)
  unfolding strcpy_sx get_token evmc_load_and_create configure_vm set_error
  evmc_load_and_configure buffer array config s =
      let (r, copy) = strcpy_sx buffer path_max_length config in
      if r == 0
      then (let (path, options) = get_token (cstr copy) b',' in
          configure_vm path options (evmc_load_and_create p array (some path) s))
      else (let (ec, s) = set_error invalid_argument too_long_config s in
          some (none, write_error_code ec s))
