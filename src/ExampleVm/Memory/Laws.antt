-- ===== src/ExampleVm/Memory/Laws.antt =====
-- The memory of the example VM keeps its size and its bounds.
use evmc.Base.{
  ℕ, zero, suc, ◌+◌, ◌≤◌, ◌≡◌, ap, Bool, none, some, List, [], ◌∷◌, ◌++◌, length, length-append,
  length-drop, length-take, take, drop, leb, if◌then◌else◌, arith, Bool-cases, inl, inr, ◌⊎◌,
}
use evmc.ExampleVm.Memory.{Memory, memory_limit, in_bounds, expand, store, region}

abbrev pub IsMemory : Memory → Type 0
IsMemory memory = (memory.size ≤ memory_limit) × (length memory.bytes ≡ memory_limit)

length-take_min :
    (n : ℕ) (xs : List ℕ) → length (take n xs) ≡ (if leb n (length xs) then n else length xs)
length-take_min zero xs = ground arith
length-take_min (suc n) [] = ground arith
length-take_min (suc n) (x ∷ xs) = ground (arith, length-take_min n xs)

-- The expansion is refused exactly where the sum in 32 bits is above the limit, and the size grows to
-- it otherwise; the bytes are kept.
pub expand-IsMemory :
    (offset count : ℕ) (memory : Memory) → IsMemory memory → IsMemory (expand offset count memory).1
unfolding expand
expand-IsMemory offset count memory ok = ground arith

pub region-length :
    (offset count : ℕ) (memory : Memory) (bytes : List ℕ)
    → IsMemory memory
    → region offset count memory ≡ some bytes
    → length bytes ≡ count
unfolding region
region-length offset count memory bytes ok h = elim (Bool-cases (in_bounds offset count)) [
  | inl e ↦
      let same : some (take count (drop offset memory.bytes)) ≡ some bytes = rw e at h in
      let bytes_are : take count (drop offset memory.bytes) ≡ bytes = cc same in
      let room : count ≤ length (drop offset memory.bytes) =
        ground (arith, length-drop offset memory.bytes) in
      omega (arith, ap length bytes_are, length-take count (drop offset memory.bytes) room)
  | inr e ↦ let lost : none ≡ some bytes = rw e at h in absurd (cc lost)
]

-- A copy over the bytes from an offset on.
length-overwrite :
    (i : ℕ) (value bytes : List ℕ)
    → (length value ≡ 0) ⊎ (i + length value ≤ length bytes)
    → length (take i bytes ++ (value ++ drop (i + length value) bytes)) ≡ length bytes
length-overwrite i value bytes h = ground (
  arith,
  length-append (take i bytes) (value ++ drop (i + length value) bytes),
  length-append value (drop (i + length value) bytes),
  length-take_min i bytes,
  length-drop (i + length value) bytes,
)

pub store-IsMemory :
    (offset : ℕ) (value : List ℕ) (memory memory' : Memory) (stored : Bool)
    → IsMemory memory
    → store offset value memory ≡ some (stored, memory')
    → IsMemory memory'
unfolding store
store-IsMemory offset value memory memory' stored ok h = ground (
  arith,
  expand-IsMemory offset (length value) memory ok,
  length-overwrite offset value memory.bytes,
)
