-- ===== src/Tests/Hex.antt =====
-- Hex strings on small inputs.
use evmc.Base.{ℕ, ◌≡◌, refl, some, List, [], ◌∷◌, ◌++◌, arith}
use evmc.CString.{text}
use evmc.Hex.{
  hex_digit, hex_byte, hex, from_hex_digit, from_hex, from_hex_array, from_spaced_hex,
  remove_prefix,
}
use evmc.Hex.Spaces.{non_spaces}
use evmc.Hex.Decode.{decode_pairs, from_hex-decode_pairs}
use evmc.Hex.Laws.{
  zeros, right_aligned, from_hex-hex, from_spaced_hex-decode_pairs, from_hex_array-right_aligned,
  from_hex_array-twice,
}

abbrev two_bytes : List ℕ
two_bytes = 171 ∷ 12 ∷ []

hex-two_bytes : hex two_bytes ≡ text "ab0c"
unfolding hex hex_byte hex_digit
hex-two_bytes = refl

one_prefix : remove_prefix (remove_prefix (text "0xab0c")) ≡ remove_prefix (text "0xab0c")
unfolding remove_prefix
one_prefix = refl

from_hex-decode_pairs_example :
    from_hex (text "0xAb0c") ≡ decode_pairs (remove_prefix (text "0xAb0c"))
from_hex-decode_pairs_example = from_hex-decode_pairs (text "0xAb0c")

from_hex-hex_example :
    (from_hex (hex two_bytes) ≡ some two_bytes)
    × (from_hex (text "0x" ++ hex two_bytes) ≡ some two_bytes)
from_hex-hex_example = from_hex-hex two_bytes (omega arith, (omega arith, tt))

abbrev spaced : List ℕ
spaced = 9 ∷ b'0' ∷ b'x' ∷ 10 ∷ b'a' ∷ 32 ∷ b'b' ∷ 13 ∷ []

from_spaced_hex-decode_pairs_example :
    from_spaced_hex spaced ≡ decode_pairs (remove_prefix (non_spaces spaced))
from_spaced_hex-decode_pairs_example = from_spaced_hex-decode_pairs spaced (omega arith)

spaced_lem : decode_pairs (remove_prefix (non_spaces spaced)) ≡ some (171 ∷ [])
unfolding decode_pairs remove_prefix non_spaces from_hex_digit
spaced_lem = refl

from_hex_array-right_aligned_example :
    from_hex_array 4 (text "0xab0c")
    ≡ right_aligned 4 (decode_pairs (remove_prefix (text "0xab0c")))
from_hex_array-right_aligned_example = from_hex_array-right_aligned 4 (text "0xab0c") one_prefix

from_hex_array-twice_example :
    from_hex_array 4 (text "0x0x" ++ hex two_bytes) ≡ some (zeros 1 ++ (two_bytes ++ (0 ∷ [])))
from_hex_array-twice_example = from_hex_array-twice 4 two_bytes (omega arith, (omega arith, tt))
