-- ===== src/Hex.antt =====
-- include/evmc/hex.hpp: hex strings. A character is its code, and a byte a number below 256.
pub mod Spaces
pub mod Decode
pub mod Laws
use mathlib.Core.Option
use Prim.Native.Nat.{bit_or}
use evmc.Base.{
  ℕ, suc, ◌+◌, ◌-◌, ◌*◌, ◌/◌, ◌%◌, ◌^◌, Bool, true, false, ◌&&◌, Option, none, some, List, [], ◌∷◌,
  ◌++◌, length, get_elem?, take, drop, replicate, ltb, leb, ◌==◌, if◌then◌else◌,
}
use evmc.CString.{Text, text}
use evmc.Hex.Spaces.{without_spaces}

-- `hex_digits[n]`
unfoldable pub hex_digit : ℕ → ℕ
hex_digit n = elim (get_elem? (text "0123456789abcdef") n) [ none ↦ 0 | some c ↦ c ]

unfoldable pub hex_byte : ℕ → Text
unfolding hex_digit
hex_byte b = hex_digit (b / 2 ^ 4) ∷ hex_digit (b % 2 ^ 4) ∷ []

unfoldable pub hex : List ℕ → Text
unfolding hex_byte
hex [] = []
hex (b ∷ bs) = hex_byte b ++ hex bs

-- `none` is the answer -1.
unfoldable pub from_hex_digit : ℕ → Option ℕ
from_hex_digit h =
    if leb b'0' h && leb h b'9'
    then some (h - b'0')
    else if leb b'a' h && leb h b'f'
    then some (h - b'a' + 10)
    else if leb b'A' h && leb h b'F'
    then some (h - b'A' + 10)
    else none

-- `hi_nibble == 0`, and `static_cast<uint8_t>(hi_nibble | v)`, where `none` is the value -1 that
-- `hi_nibble` begins with.
abbrev pub is_zero_nibble : Option ℕ → Bool
is_zero_nibble none = false
is_zero_nibble (some n) = n == 0

abbrev pub byte_of : Option ℕ → ℕ → ℕ
byte_of none v = 2 ^ 8 - 1
byte_of (some n) v = bit_or n v % 2 ^ 8

-- The loop of `from_hex` from the index `i` on, for the rest of the characters: its answer and the
-- bytes that it writes.
unfoldable pub from_hex_loop : ℕ → Option ℕ → Text → Bool × List ℕ
from_hex_loop i hi [] = (i % 2 == 0, [])
from_hex_loop i hi (h ∷ s) = elim (from_hex_digit h) [
  | none ↦ elim (i == 1 && is_zero_nibble hi && h == b'x') [
    | true ↦ from_hex_loop (suc i) hi s
    | false ↦ (false, [])
  ]
  | some v ↦ elim (i % 2 == 0) [
    | true ↦ from_hex_loop (suc i) (some (v * 2 ^ 4)) s
    | false ↦ let r = from_hex_loop (suc i) hi s in (r.0, byte_of hi v ∷ r.1)
  ]
]

abbrev pub accepted : Bool × List ℕ → Option (List ℕ)
accepted (true, bs) = some bs
accepted (false, bs) = none

unfoldable pub validate_hex : Text → Bool
unfolding from_hex_loop
validate_hex s = (from_hex_loop 0 none s).0

-- The variant that answers with the bytes.
unfoldable pub from_hex : Text → Option (List ℕ)
unfolding from_hex_loop
from_hex s = accepted (from_hex_loop 0 none s)

-- `if (s.size() >= 2 && s[0] == '0' && s[1] == 'x') s.remove_prefix(2);`
unfoldable pub remove_prefix : Text → Text
remove_prefix [] = []
remove_prefix (c ∷ []) = c ∷ []
remove_prefix (c ∷ d ∷ s) = if c == b'0' && d == b'x' then s else c ∷ d ∷ s

-- Writes bytes to an array from an index on.
abbrev pub write_from : ℕ → List ℕ → List ℕ → List ℕ
write_from i bs array = take i array ++ (bs ++ drop (i + length bs) array)

-- The variant for a type with an array of `num_out_bytes` bytes.
unfoldable pub from_hex_array : ℕ → Text → Option (List ℕ)
unfolding from_hex_loop remove_prefix
from_hex_array num_out_bytes s =
    let s = remove_prefix s in
    let r = replicate num_out_bytes 0 in
    let num_in_bytes = length s / 2 in
    if ltb num_out_bytes num_in_bytes
    then none
    else Option.map (λ bs. write_from (num_out_bytes - num_in_bytes) bs r)
        (accepted (from_hex_loop 0 none s))

unfoldable pub from_spaced_hex : Text → Option (List ℕ)
unfolding without_spaces
from_spaced_hex s = accepted (from_hex_loop 0 none (without_spaces s))
