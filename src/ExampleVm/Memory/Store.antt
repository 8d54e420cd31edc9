-- ===== src/ExampleVm/Memory/Store.antt =====
-- What `Memory::store` of the example VM does, for every place and size.
use evmc.Base.{
  ℕ, zero, suc, ◌+◌, ◌%◌, ◌^◌, ◌≤◌, ◌<◌, ◌≡◌, refl, ap, ◌∙◌, true, false, none, some, List, [], ◌∷◌,
  ◌++◌, length, length-take, take, drop, ltb, leb, if◌then◌else◌, arith, Bool-cases, inl, inr, ◌⊎◌,
}
use evmc.ExampleVm.Memory.{Memory, memory_limit, in_bounds, expand, store, region}
use evmc.ExampleVm.Memory.Laws.{IsMemory}

drop_before : (before ys : List ℕ) (n : ℕ) → length before ≡ n → drop n (before ++ ys) ≡ ys
drop_before [] ys zero e = refl
drop_before [] ys (suc n) e = absurd (omega arith)
drop_before (x ∷ before) ys zero e = absurd (omega arith)
drop_before (x ∷ before) ys (suc n) e = drop_before before ys n (omega arith)

take_before : (before ys : List ℕ) → take (length before) (before ++ ys) ≡ before
take_before [] ys = refl
take_before (x ∷ before) ys = ap (x ∷◌) (take_before before ys)

-- The memory with a value copied to a place.
abbrev stored_at : ℕ → List ℕ → Memory → Memory
stored_at offset value memory = record {
  size = if ltb memory.size (offset + length value) then offset + length value else memory.size;
  bytes = take offset memory.bytes ++ (value ++ drop (offset + length value) memory.bytes);
}

store_within :
    (offset : ℕ) (value : List ℕ) (memory : Memory)
    → offset + length value ≤ memory_limit
    → store offset value memory ≡ some (true, stored_at offset value memory)
unfolding store expand
store_within offset value memory h =
    let same : (offset + length value) % 2 ^ 32 ≡ offset + length value = omega arith in
    ground (arith, same)

store_wrapped :
    (offset : ℕ) (value : List ℕ) (memory : Memory)
    → offset < 2 ^ 32
    → 2 ^ 32 ≤ offset + length value
    → offset + length value ≤ 2 ^ 32 + memory_limit
    → store offset value memory ≡ none
unfolding store expand
store_wrapped offset value memory h above below = ground arith

store_refused :
    (offset : ℕ) (value : List ℕ) (memory : Memory)
    → memory_limit < (offset + length value) % 2 ^ 32
    → store offset value memory ≡ some (false, memory)
unfolding store expand
store_refused offset value memory h = ground arith

region-stored_at :
    (offset : ℕ) (value : List ℕ) (memory : Memory)
    → IsMemory memory
    → offset + length value ≤ memory_limit
    → region offset (length value) (stored_at offset value memory) ≡ some value
unfolding region
region-stored_at offset value memory ok h =
    let read : take (length value) (
          drop offset
            (take offset memory.bytes ++ (value ++ drop (offset + length value) memory.bytes)))
        ≡ value =
      ap (take (length value)) (
        drop_before (take offset memory.bytes) (value ++ drop (offset + length value) memory.bytes)
          offset (length-take offset memory.bytes (omega arith)))
      ∙ take_before value (drop (offset + length value) memory.bytes) in
    let inside : in_bounds offset (length value) ≡ true = ground arith in rw inside (ap some read)

-- A store, in a memory of its size and at a 32-bit offset, of fewer than 2^32 bytes: up to the limit of
-- the memory it succeeds, and the region holds the value afterwards; where the end is above the
-- limit it is refused and changes nothing, unless the end, taken in 32 bits, is within the limit again:
-- then the copy is made behind the end of the array.
pub store_lem :
    (offset : ℕ) (value : List ℕ) (memory : Memory)
    → IsMemory memory
    → offset < 2 ^ 32
    → length value < 2 ^ 32
    → ((offset + length value ≤ memory_limit)
        × ((memory' : Memory) × (store offset value memory ≡ some (true, memory'))
            × (region offset (length value) memory' ≡ some value)
            × (offset + length value ≤ memory'.size)
            × (memory.size ≤ memory'.size)))
      ⊎ (((memory_limit < (offset + length value) % 2 ^ 32)
            × (store offset value memory ≡ some (false, memory)))
          ⊎ ((2 ^ 32 ≤ offset + length value)
              × (offset + length value ≤ 2 ^ 32 + memory_limit)
              × (store offset value memory ≡ none)))
store_lem offset value memory ok small short =
    elim (Bool-cases (leb (offset + length value) memory_limit)) [
      | inl within ↦
          let fits : offset + length value ≤ memory_limit = ground arith in
          inl (
            fits,
            (
              stored_at offset value memory,
              store_within offset value memory fits,
              region-stored_at offset value memory ok fits,
              ground arith,
              ground arith,
            ),
          )
      | inr above ↦ elim (Bool-cases (ltb memory_limit ((offset + length value) % 2 ^ 32))) [
        | inl refused ↦
            let over : memory_limit < (offset + length value) % 2 ^ 32 = ground arith in
            inr (inl (over, store_refused offset value memory over))
        | inr wrapped ↦
            let from : 2 ^ 32 ≤ offset + length value = ground arith in
            let to : offset + length value ≤ 2 ^ 32 + memory_limit = ground arith in
            inr (inr (from, to, store_wrapped offset value memory small from to))
      ]
    ]
