-- ===== src/CString/Decimal.antt =====
-- `%d` of the C library's formatted output.
use evmc.Base.{ℕ, zero, suc, ◌+◌, ◌-◌, ◌/◌, ◌%◌, ◌^◌, List, [], ◌∷◌, ltb, if◌then◌else◌}
use evmc.Base.Int.{ℤ, pos, negsuc}

-- The digits of a number in front of a text; 20 rounds serve any 64-bit number.
decimal_onto : ℕ → ℕ → List ℕ → List ℕ
decimal_onto zero n rest = rest
decimal_onto (suc fuel) n rest =
    let digits = (b'0' + n % 10) ∷ rest in
    let more = decimal_onto fuel (n / 10) digits in if ltb n 10 then digits else more

unfoldable pub decimal : ℤ → List ℕ
unfolding decimal_onto
decimal (pos n) = decimal_onto 20 n []
decimal (negsuc n) = b'-' ∷ decimal_onto 20 (n + 1) []

-- `(int)n` for a `size_t`: the low 32 bits, in two's complement.
unfoldable pub int_of_size : ℕ → ℤ
int_of_size n = let w = n % 2 ^ 32 in if ltb w (2 ^ 31) then pos w else negsuc (2 ^ 32 - w - 1)
