-- ===== src/Bytes.antt =====
-- `byte_traits` of include/evmc/bytes.hpp. A range of bytes is an index into the memory, which is the
-- list of its bytes, and a length.
pub mod Laws
use evmc.Base.{
  ℕ, zero, suc, ◌+◌, ◌-◌, ◌<◌, Bool, true, false, Option, none, some, List, [], ◌∷◌, length,
  get_elem?, ltb, ◌==◌, if◌then◌else◌,
}
use evmc.Base.Int.{ℤ, pos, negsuc}

-- `p[i]` of a memory that has the index, and a write to it.
abbrev pub read : List ℕ → ℕ → ℕ
read memory i = elim (get_elem? memory i) [ none ↦ 0 | some b ↦ b ]

unfoldable pub write : ℕ → ℕ → List ℕ → List ℕ
write i value [] = []
write zero value (b ∷ memory) = value ∷ memory
write (suc i) value (b ∷ memory) = b ∷ write i value memory

-- `std::fill_n(ptr, count, value)`
unfoldable pub assign : ℕ → ℕ → ℕ → List ℕ → List ℕ
unfolding write
assign ptr zero value memory = memory
assign ptr (suc count) value memory = assign (suc ptr) count value (write ptr value memory)

abbrev pub eq : ℕ → ℕ → Bool
eq a b = a == b

abbrev pub lt : ℕ → ℕ → Bool
lt a b = ltb a b

-- `std::copy_n(src, count, dest)`, from the first byte on
unfoldable pub copy_n : ℕ → ℕ → ℕ → List ℕ → List ℕ
unfolding write
copy_n src zero dest memory = memory
copy_n src (suc count) dest memory =
    copy_n (suc src) count (suc dest) (write dest (read memory src) memory)

-- `std::copy_backward`, from the last byte on
unfoldable pub copy_backward : ℕ → ℕ → ℕ → List ℕ → List ℕ
unfolding write
copy_backward src zero dest memory = memory
copy_backward src (suc count) dest memory =
    copy_backward src count dest (write (dest + count) (read memory (src + count)) memory)

unfoldable pub move : ℕ → ℕ → ℕ → List ℕ → List ℕ
unfolding copy_n copy_backward
move dest src count memory =
    if ltb dest src
    then copy_n src count dest memory
    else if ltb src dest
    then copy_backward src count dest memory
    else memory

unfoldable pub copy : ℕ → ℕ → ℕ → List ℕ → List ℕ
unfolding copy_n
copy dest src count memory = copy_n src count dest memory

-- The lists are the two ranges, of `count` bytes each.
unfoldable pub compare : List ℕ → List ℕ → ℤ
compare [] b = pos 0
compare (x ∷ a) [] = pos 0
compare (x ∷ a) (y ∷ b) =
    let rest = compare a b in if lt x y then negsuc 0 else if lt y x then pos 1 else rest

-- The index of the first occurrence.
unfoldable pub find : List ℕ → ℕ → Option ℕ
find [] value = none
find (b ∷ s) value = elim (find s value) [
  | none ↦ if b == value then some 0 else none
  | some i ↦ if b == value then some 0 else some (suc i)
]
