-- ===== src/CString.antt =====
-- The functions of the C library that lib/loader/loader.c calls on strings. A string is the list
-- of its bytes before the terminating null; a char array is the list of all its bytes.
pub mod Decimal
pub mod Laws
use Prim.Native.Char.{code}
use Prim.Native.String.{String}
use mathlib.Core.Option
use evmc.Base.{
  ◌<◌, ℕ, zero, suc, ◌+◌, Bool, true, false, ◌&&◌, Option, none, some, List, [], ◌∷◌, length, ◌==◌,
  if◌then◌else◌,
}

abbrev pub Text : Type 0
Text = List ℕ

-- The bytes of a literal.
abbrev pub text : String → Text
text String.[] = []
text (String.◌∷◌ c s) = code c ∷ text s

-- The string that begins at the start of an array.
unfoldable pub cstr : Text → Text
cstr [] = []
cstr (c ∷ cs) = if c == 0 then [] else c ∷ cstr cs

-- No byte is the terminator, so that the list is a string.
abbrev pub IsString : Text → Type 0
IsString [] = Unit
IsString (c ∷ cs) = (0 < c) × IsString cs

abbrev pub strlen : Text → ℕ
strlen s = length s

-- The index of the first, and of the last, occurrence of a byte.
unfoldable pub strchr : Text → ℕ → Option ℕ
strchr [] c = none
strchr (b ∷ s) c = if b == c then some 0 else Option.map suc (strchr s c)

unfoldable pub strrchr : Text → ℕ → Option ℕ
strrchr [] c = none
strrchr (b ∷ s) c = elim (strrchr s c) [
  | some i ↦ some (suc i)
  | none ↦ if b == c then some 0 else none
]

-- `strncmp(s, prefix, strlen(prefix)) == 0`
unfoldable pub starts_with : Text → Text → Bool
starts_with s [] = true
starts_with [] (p ∷ ps) = false
starts_with (c ∷ s) (p ∷ ps) = c == p && starts_with s ps

-- `memcpy` to the start of an array; what does not fit is not written.
unfoldable pub memcpy : Text → Text → Text
memcpy dest [] = dest
memcpy [] (c ∷ src) = []
memcpy (d ∷ dest) (c ∷ src) = c ∷ memcpy dest src
