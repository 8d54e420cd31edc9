-- ===== src/Loader/SymbolName.antt =====
-- The part of `evmc_load` that builds the name of the create function in the array `prefixed_name`.

pub mod FileName
pub mod Refines
use evmc.Base.{ℕ, zero, suc, ◌+◌, none, some, [], ◌∷◌, drop, if◌then◌else◌}
use evmc.CString.{Text, text, cstr, strlen, strchr, strrchr, starts_with}
use evmc.Loader.Types.{path_max_length}
use evmc.Loader.Copy.{null_first, strcpy_sx}

abbrev pub prefix : Text
prefix = text "evmc_create_"

-- Works on an array from an index on.
abbrev pub at : ℕ → (Text → Text) → Text → Text
at zero f a = f a
at (suc i) f [] = []
at (suc i) f (c ∷ a) = c ∷ at i f a

-- `name_pos`: behind the last '/' of the path, and behind "lib" if it stands there.
unfoldable pub file_name : Text → Text
unfolding strrchr
file_name filename = elim (strrchr filename b'/') [
  | some i ↦ drop (suc i) filename
  | none ↦ filename
]

unfoldable pub name_pos : Text → Text
unfolding file_name starts_with
name_pos filename =
    let name = file_name filename in if starts_with name (text "lib") then drop 3 name else name

-- `ext_pos = strchr(a, '.'); if (ext_pos) *ext_pos = 0;`
unfoldable pub trim_extensions : Text → Text
unfolding strchr cstr
trim_extensions a = elim (strchr (cstr a) b'.') [ none ↦ a | some i ↦ at i null_first a ]

abbrev pub put_underscore : (Text → Text) → Text → Text
put_underscore f [] = []
put_underscore f (c ∷ a) = b'_' ∷ f a

-- `while ((dash_pos = strchr(dash_pos, '-')) != NULL) *dash_pos++ = '_';` on the array from
-- `dash_pos` on. With no fuel left the array stays as it is.
unfoldable pub replace_dashes : ℕ → Text → Text
unfolding strchr cstr
replace_dashes zero a = a
replace_dashes (suc fuel) a = elim (strchr (cstr a) b'-') [
  | none ↦ a
  | some i ↦ at i (put_underscore (replace_dashes fuel)) a
]

-- The size of the array, and the number of bytes from `base_name` on.
abbrev pub prefixed_name_size : ℕ
prefixed_name_size = strlen prefix + 1 + path_max_length

abbrev pub base_name_size : ℕ
base_name_size = path_max_length + 1

-- The array after these statements; `a` is what it holds before them.
unfoldable pub prefixed_name : Text → Text → Text
unfolding strcpy_sx trim_extensions replace_dashes
prefixed_name a filename =
    let a = (strcpy_sx a prefixed_name_size prefix).1 in
    let copy = λ (b : Text). (strcpy_sx b path_max_length (name_pos filename)).1 in
    let a = at (strlen prefix) copy a in
    let a = trim_extensions a in at (strlen prefix) (replace_dashes base_name_size) a
