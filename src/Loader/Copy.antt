-- ===== src/Loader/Copy.antt =====
-- `strcpy_sx`
pub mod Laws
use evmc.Base.{ℕ, ◌++◌, [], ◌∷◌, List, length, leb, if◌then◌else◌}
use evmc.CString.{Text, strlen, memcpy}

-- Writes a null byte at the start of an array.
abbrev pub null_first : Text → Text
null_first [] = []
null_first (d ∷ dest) = 0 ∷ dest

-- The array `dest` with its size, and the string `src`: the result and the array after the call.
unfoldable pub strcpy_sx : Text → ℕ → Text → ℕ × Text
unfolding memcpy
strcpy_sx dest destsz src =
    if leb destsz (strlen src) then (1, null_first dest) else (0, memcpy dest (src ++ (0 ∷ [])))
