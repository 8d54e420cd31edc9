-- ===== src/ExampleVm/Memory.antt =====
-- `Stack` and `Memory` of examples/example_vm/example_vm.cpp, and the conversions between words.
pub mod Laws
pub mod Store
use evmc.Base.{
  ℕ, suc, ◌+◌, ◌-◌, ◌%◌, ◌^◌, ◌≤◌, ◌<◌, ◌≡◌, Bool, true, false, ◌&&◌, ◌||◌, Option, none, some,
  List, [], ◌∷◌, ◌++◌, length, take, drop, replicate, ltb, leb, ◌==◌, if◌then◌else◌, arith,
}
use evmc.Base.Int.{ℤ, pos, negsuc}

-- The items of the stack below `pointer`, the top first. A `pop` below the first item and a `push`
-- behind the last slot reach outside the array: `none`.
abbrev pub Stack : Type 0
Stack = List ℕ

abbrev pub stack_limit : ℕ
stack_limit = 1024

abbrev pub pop : Stack → Option (ℕ × Stack)
pop [] = none
pop (value ∷ stack) = some (value, stack)

abbrev pub push : ℕ → Stack → Option Stack
push value stack = if ltb (length stack) stack_limit then some (value ∷ stack) else none

abbrev pub memory_limit : ℕ
memory_limit = 1024

-- `data` of the source is here `bytes`.
pub record Memory : Type 0 where
  pub size : ℕ
  pub bytes : List ℕ

abbrev pub empty_memory : Memory
empty_memory = record { size = 0; bytes = replicate memory_limit 0 }

-- The sum of the two 32-bit numbers is taken in 32 bits. The answer is the offset that the pointer
-- leads to, or `none` for the null pointer.
unfoldable pub expand : ℕ → ℕ → Memory → Option ℕ × Memory
expand offset region_size memory =
    let new_size = (offset + region_size) % 2 ^ 32 in
    if ltb memory_limit new_size then (none, memory) else (
      some offset,
      record memory { size = if ltb memory.size new_size then new_size else memory.size },
    )

-- An access of `count` bytes from an offset of `data` on: an access outside the array is undefined.
-- `memcpy` of no bytes makes no access.
abbrev pub in_bounds : ℕ → ℕ → Bool
in_bounds offset count = count == 0 || leb (offset + count) memory_limit

-- `none`: the copy reaches outside the array. Else whether the value was stored, and the memory.
unfoldable pub store : ℕ → List ℕ → Memory → Option (Bool × Memory)
unfolding expand
store offset value memory =
    let (p, memory) = expand offset (length value) memory in
    elim p [
      | none ↦ some (false, memory)
      | some at_offset ↦
          if in_bounds at_offset (length value)
          then some (
            true,
            record memory {
              bytes =
                  take at_offset memory.bytes
                  ++ (value ++ drop (at_offset + length value) memory.bytes);
            },
          )
          else none
    ]

-- The bytes of a region, read through a pointer from `expand`; `none` if it reaches outside.
unfoldable pub region : ℕ → ℕ → Memory → Option (List ℕ)
region offset count memory =
    if in_bounds offset count then some (take count (drop offset memory.bytes)) else none

-- `to_uint32` and `to_address` keep the low bytes of a 256-bit word; `to_uint256` fills up with zeros.
abbrev pub to_uint32 : ℕ → ℕ
to_uint32 value = value % 2 ^ 32

abbrev pub to_address : ℕ → ℕ
to_address value = value % 2 ^ 160

abbrev pub to_uint256 : ℕ → ℕ
to_uint256 x = x

-- `static_cast<uint32_t>` of a signed number
abbrev pub uint32_of_int : ℤ → ℕ
uint32_of_int (pos n) = n % 2 ^ 32
uint32_of_int (negsuc n) = 2 ^ 32 - 1 - n % 2 ^ 32
