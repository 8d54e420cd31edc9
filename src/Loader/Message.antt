-- ===== src/Loader/Message.antt =====
-- `set_error` and `evmc_last_error_msg`
use evmc.Base.{Option, none, some, length, take, ◌-◌, ltb, if◌then◌else◌}
use evmc.CString.{Text}
use evmc.Loader.Types.{
  LoaderErrorCode, null, to_buffer, to_system, Loader, last_error_msg_buffer_size,
}

-- `message` is the formatted text. vsnprintf writes what fits of it and returns its whole length.
unfoldable pub set_error : LoaderErrorCode → Text → Loader → LoaderErrorCode × Loader
set_error error_code message s = (
  error_code,
  record s {
    last_error_msg_buffer = take (last_error_msg_buffer_size - 1) message;
    last_error_msg =
        if ltb (length message) last_error_msg_buffer_size then to_buffer else s.last_error_msg;
  },
)

-- The text that the pointer leads to.
unfoldable pub message_text : Loader → Option Text
message_text s = elim (s.last_error_msg) [
  | null ↦ none
  | to_buffer ↦ some s.last_error_msg_buffer
  | to_system t ↦ some t
]

unfoldable pub evmc_last_error_msg : Loader → Option Text × Loader
unfolding message_text
evmc_last_error_msg s = (message_text s, record s { last_error_msg = null })
