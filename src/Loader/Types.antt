-- ===== src/Loader/Types.antt =====
-- The loader's error codes, its static variables, and the system that it runs on.
use evmc.Base.{ℕ, Option, none, some, ◌∷◌}
use evmc.CString.{Text}
use evmc.Helpers.Vm.{Vm, Event, History}

-- `enum evmc_loader_error_code`
pub data LoaderErrorCode : Type 0 where
  loader_success cannot_open symbol_not_found invalid_argument : LoaderErrorCode
  vm_creation_failure abi_version_mismatch : LoaderErrorCode
  invalid_option_name invalid_option_value : LoaderErrorCode
  unspecified_error : LoaderErrorCode

abbrev pub path_max_length : ℕ
path_max_length = 4096

abbrev pub last_error_msg_buffer_size : ℕ
last_error_msg_buffer_size = 511

-- The pointer `last_error_msg`: null, to `last_error_msg_buffer`, or to a text of the system.
pub data Message : Type 0 where
  null : Message
  to_buffer : Message
  to_system : Text → Message

-- The static variables of lib/loader/loader.c, what the caller's `error_code` points to (`none` for
-- a null pointer), and the calls of outside code.
pub record Loader : Type 0 where
  pub last_error_msg : Message
  pub last_error_msg_buffer : Text
  pub error_code : Option LoaderErrorCode
  pub history : History

-- The system: dlopen, dlerror, dlsym, and the create functions. Each may answer by all that was
-- called before.
pub record Platform : Type 0 where
  pub dll_open : History → Text → Option ℕ
  pub dll_get_error_msg : History → Option Text
  pub dll_get_create_fn : History → ℕ → Text → Option ℕ
  pub call_create_fn : History → ℕ → Option Vm

abbrev pub log : Event → Loader → Loader
log e s = record s { history = e ∷ s.history }

-- `if (error_code) *error_code = ec;`
abbrev pub write_error_code : LoaderErrorCode → Loader → Loader
write_error_code ec s = record s {
  error_code = elim (s.error_code) [ none ↦ none | some old ↦ some ec ];
}
