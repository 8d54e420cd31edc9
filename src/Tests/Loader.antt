-- ===== src/Tests/Loader.antt =====
-- The loader on a system with one library, as in test/unittests/loader_mock.h.
use mathlib.Core.Option
use evmc.Base.{
  ℕ, ◌+◌, ◌≡◌, ◌≢◌, ◌<◌, ◌↔◌, refl, Bool, Option, none, some, List, [], ◌∷◌, ◌==◌, if◌then◌else◌,
  ◌&&◌, length, replicate, length-replicate, drop, arith,
}
use evmc.Base.Int.{pos}
use evmc.CString.{Text, text, cstr, starts_with, strlen}
use evmc.Helpers.Vm.{
  Vm, History, set_option_success, set_option_invalid_name, option_set, created, looked_up, opened,
}
use evmc.Loader.Types.{
  LoaderErrorCode, loader_success, invalid_argument, null, Loader, Platform, path_max_length,
}
use evmc.Loader.Copy.{strcpy_sx}
use evmc.Loader.Copy.Laws.{strcpy_sx_lem}
use evmc.Loader.SymbolName.{prefixed_name, prefixed_name_size, name_pos}
use evmc.Loader.SymbolName.Refines.{symbol_name, prefixed_name-symbol_name}
use evmc.Loader.Load.{evmc_load}
use evmc.Loader.Load.Laws.{
  IsBadFileName, opens, closes, evmc_load-invalid_argument, evmc_load-closes, Resolves,
  evmc_load-Resolves,
}
use evmc.Loader.Instances.{creations, destructions, held}
use evmc.Loader.Create.Laws.{
  IsReady, HasCode, evmc_load_and_create-instances, evmc_load_and_create-answer,
}
use evmc.Loader.Configure.Tokens.{tokens, parse_options}
use evmc.Loader.Configure.RoundTrip.{config_text}
use evmc.Loader.Configure.Written.{configure-written}
use evmc.Loader.Configure.Laws.{AllSet, configure-instances, configure-answer, configure-options}
use evmc.Loader.Create.{evmc_load_and_create}
use evmc.Loader.Configure.{evmc_load_and_configure, get_token}

same_text : Text → Text → Bool
unfolding starts_with
same_text a b = strlen a == strlen b && starts_with a b

option_vm : Vm
unfolding same_text
option_vm = record {
  vm_pointer = 9;
  abi_version = pos 12;
  name = text "vm";
  version = text "1";
  get_capabilities = λ h. 1;
  set_option = some (λ h name value.
      if same_text name (text "o") then set_option_success else set_option_invalid_name);
}

abbrev library_path : Text
library_path = text "/x/libfoo-bar.so.1"

system : Platform
unfolding same_text option_vm
system = record {
  dll_open = λ h path. if same_text path library_path then some 1 else none;
  dll_get_error_msg = λ h. none;
  dll_get_create_fn =
      λ h k name. if same_text name (text "evmc_create_foo_bar") then some 7 else none;
  call_create_fn = λ h f. some option_vm;
}

abbrev fresh : Loader
fresh = record {
  last_error_msg = null;
  last_error_msg_buffer = [];
  error_code = some LoaderErrorCode.unspecified_error;
  history = [];
}

name_array : Text
name_array = replicate prefixed_name_size 1

copy_buffer : Text
copy_buffer = replicate path_max_length 1

load_run : (evmc_load system name_array (some library_path) fresh).create_fn ≡ some 7
unfolding system evmc_load name_array prefixed_name name_pos
load_run = refl

abbrev config : Text
config = text "/x/libfoo-bar.so.1,o=1,o"

configure_run : Option (Option ℕ)
unfolding system evmc_load_and_configure name_array copy_buffer name_pos
configure_run =
    Option.map (λ (r : Option Vm × Loader). Option.map (λ (v : Vm). v.vm_pointer) r.0)
      (evmc_load_and_configure system copy_buffer name_array config fresh)

configure_run_lem : configure_run ≡ some (some 9)
unfolding configure_run cstr prefixed_name
configure_run_lem = refl

-- The loader after that run.
abbrev configured_loader : Loader
configured_loader = record {
  last_error_msg = null;
  last_error_msg_buffer = [];
  error_code = some loader_success;
  history =
      option_set 9 (text "o") [] set_option_success
      ∷ option_set 9 (text "o") (text "1") set_option_success
      ∷ created 7 (some 9)
      ∷ looked_up 1 (text "evmc_create_foo_bar") (some 7)
      ∷ opened library_path (some 1)
      ∷ [];
}

configured_run :
    evmc_load_and_configure system copy_buffer name_array config fresh
    ≡ some (some option_vm, configured_loader)
unfolding system evmc_load_and_configure name_array copy_buffer name_pos cstr prefixed_name
configured_run = refl

name_array_size : length name_array ≡ prefixed_name_size
unfolding name_array
name_array_size = length-replicate {A = ℕ} prefixed_name_size 1

copy_buffer_size : length copy_buffer ≡ path_max_length
unfolding copy_buffer
copy_buffer_size = length-replicate {A = ℕ} path_max_length 1

strcpy_sx_lem_example :
    let r = strcpy_sx (1 ∷ 2 ∷ 3 ∷ []) 3 (text "ab") in
    (r.0 ≡ 0) × (cstr r.1 ≡ text "ab") × (drop 3 r.1 ≡ [])
strcpy_sx_lem_example =
    strcpy_sx_lem (1 ∷ 2 ∷ 3 ∷ []) 3 (text "ab") (omega arith) (omega arith) (omega arith)

prefixed_name-symbol_name_example :
    cstr (prefixed_name name_array library_path) ≡ symbol_name (name_pos library_path)
prefixed_name-symbol_name_example =
    prefixed_name-symbol_name name_array library_path name_array_size (omega arith)

evmc_load-Resolves_example :
    ((evmc_load system name_array (some library_path) fresh).create_fn ≡ some 7) ↔ (
      (¬ IsBadFileName (some library_path))
      × ((k : ℕ) × (system.dll_open [] library_path ≡ some k)
          × Resolves system [] library_path k 7))
evmc_load-Resolves_example =
    evmc_load-Resolves system name_array library_path fresh 7 name_array_size (omega arith)

evmc_load-invalid_argument_example :
    (((evmc_load system name_array (some []) fresh).ec ≡ invalid_argument)
      ↔ IsBadFileName (some []))
    × (((evmc_load system name_array (some []) fresh).loader.history ≡ [])
        ↔ IsBadFileName (some []))
evmc_load-invalid_argument_example = evmc_load-invalid_argument system name_array (some []) fresh

-- A library in which nothing is found.
bare_system : Platform
unfolding option_vm
bare_system = record {
  dll_open = λ h path. some 1;
  dll_get_error_msg = λ h. none;
  dll_get_create_fn = λ h k name. none;
  call_create_fn = λ h f. none;
}

evmc_load-closes_example :
    let h = (evmc_load bare_system name_array (some library_path) fresh).loader.history in
    opens 1 h + 0 ≡ closes 1 h + 0
unfolding bare_system evmc_load opens closes
evmc_load-closes_example = evmc_load-closes bare_system name_array (some library_path) fresh 1 refl

evmc_load_and_create-instances_example :
    let r = evmc_load_and_create system name_array (some library_path) fresh in
    creations 9 (r.1).history + 0 ≡ destructions 9 (r.1).history + 0 + held 9 r.0
unfolding creations destructions
evmc_load_and_create-instances_example =
    evmc_load_and_create-instances system name_array (some library_path) fresh 9

evmc_load_and_create-answer_example :
    let r = evmc_load_and_create system name_array (some library_path) fresh in
    IsReady r.0 r.1 × HasCode (some LoaderErrorCode.unspecified_error) r.0 r.1
evmc_load_and_create-answer_example =
    evmc_load_and_create-answer system name_array (some library_path) fresh

abbrev one_option : List (Text × Text)
one_option = (text "o", text "1") ∷ []

-- The calls of a run with this option.
abbrev one_option_calls : History
one_option_calls =
    option_set 9 (text "o") (text "1") set_option_success
    ∷ created 7 (some 9)
    ∷ looked_up 1 (text "evmc_create_foo_bar") (some 7)
    ∷ opened library_path (some 1)
    ∷ []

configure-written_example :
    let made = evmc_load_and_create system name_array (some library_path) fresh in
    let written = config_text library_path one_option in
    (r : Option Vm) × (s' : Loader) × (evmc_load_and_configure system copy_buffer name_array written
        fresh
      ≡ some (r, s'))
    × (((r ≡ some option_vm) × (s'.history ≡ one_option_calls)) ↔ (
        (made.0 ≡ some option_vm)
        × AllSet option_vm.set_option option_vm (made.1).history one_option one_option_calls))
unfolding config_text
configure-written_example =
    configure-written system copy_buffer name_array library_path one_option fresh option_vm
      one_option_calls copy_buffer_size (omega arith) (omega arith) (omega arith) (omega arith)

-- The right side of that equivalence holds.
one_option_taken :
    let made = evmc_load_and_create system name_array (some library_path) fresh in
    (made.0 ≡ some option_vm)
    × AllSet option_vm.set_option option_vm (made.1).history one_option one_option_calls
unfolding system evmc_load_and_create name_array name_pos cstr prefixed_name
one_option_taken = (refl, (_, refl, refl, refl))

configure-instances_example :
    (r : Option Vm) × (s' : Loader) × (evmc_load_and_configure system copy_buffer name_array config
        fresh
      ≡ some (r, s'))
    × (creations 9 s'.history + 0 ≡ destructions 9 s'.history + 0 + held 9 r)
unfolding creations destructions
configure-instances_example =
    configure-instances system copy_buffer name_array config fresh 9 copy_buffer_size (omega arith)

configure-answer_example :
    (r : Option Vm) × (s' : Loader) × (evmc_load_and_configure system copy_buffer name_array config
        fresh
      ≡ some (r, s'))
    × ((r ≡ none) ↔ (s'.error_code ≢ some loader_success))
    × IsReady r s'
configure-answer_example =
    configure-answer system copy_buffer name_array config fresh copy_buffer_size (omega arith)
      (λ e. cc)

configure-options_example :
    let (path, options) = get_token config b',' in
    let made = evmc_load_and_create system name_array (some path) fresh in
    (length config < path_max_length)
    × (made.0 ≡ some option_vm)
    × AllSet option_vm.set_option option_vm
        (made.1).history
        (parse_options (tokens b',' options))
        configured_loader.history
configure-options_example =
    configure-options system copy_buffer name_array config fresh option_vm configured_loader
      copy_buffer_size (omega arith) configured_run
