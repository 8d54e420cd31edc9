-- ===== src/Helpers/Result.antt =====
-- `evmc_make_result`, `evmc_release_result` and the release function of include/evmc/helpers.h.
pub mod Laws
use evmc.Base.{ℕ, Option, none, some, List, [], ◌∷◌, take, ◌==◌, if◌then◌else◌}
use evmc.Base.Int.{ℤ, pos}
use evmc.Evmc.{StatusCode}
use evmc.Evmc.Messages.{EvmcResult}

-- The live blocks of the heap: a pointer and the bytes there.
abbrev pub Heap : Type 0
Heap = List (ℕ × List ℕ)

-- `free(p)`: the block is no longer live. Freeing the null pointer does nothing.
unfoldable pub free_block : ℕ → Heap → Heap
free_block p [] = []
free_block p ((q, bytes) ∷ heap) =
    let rest = free_block p heap in if q == p then heap else (q, bytes) ∷ rest

abbrev pub free : Option ℕ → Heap → Heap
free none heap = heap
free (some p) heap = free_block p heap

-- `memset(&result, 0, sizeof(result))`
abbrev pub zeroed_result : EvmcResult
zeroed_result = record {
  status_code = StatusCode.success;
  gas_left = pos 0;
  gas_refund = pos 0;
  output_data = none;
  output_size = 0;
  release = none;
  create_address = 0;
}

-- `malloc`, which may answer with null, and the pointer to `evmc_free_result_memory`.
module _ (malloc : Heap → ℕ → Option ℕ) (free_result_memory : ℕ) where
  -- The statements behind the copy of the output.
  abbrev pub set_fields : StatusCode → ℤ → ℤ → EvmcResult → EvmcResult
  set_fields status left refund result = record result {
    status_code = status;
    gas_left = left;
    gas_refund = refund;
  }

  -- `output` is the memory that `output_data` points to.
  unfoldable pub evmc_make_result : StatusCode → ℤ → ℤ → List ℕ → ℕ → Heap → EvmcResult × Heap
  evmc_make_result status left refund output size heap =
      if size == 0
      then (set_fields status left refund zeroed_result, heap)
      else elim (malloc heap size) [
        | none ↦ (record zeroed_result { status_code = StatusCode.out_of_memory }, heap)
        | some buffer ↦ (
          set_fields status left refund (record zeroed_result {
            output_data = some buffer;
            output_size = size;
            release = some free_result_memory;
          }),
          (buffer, take size output) ∷ heap,
        )
      ]

-- `evmc_free_result_memory`
unfoldable pub evmc_free_result_memory : EvmcResult → Heap → Heap
unfolding free_block
evmc_free_result_memory result heap = free result.output_data heap

-- `result->release(result)`: the function above, or one outside, that a `release` pointer leads to.
module _ (outside : ℕ → EvmcResult → Heap → Heap) (free_result_memory : ℕ) where
  unfoldable pub call_release : ℕ → EvmcResult → Heap → Heap
  unfolding evmc_free_result_memory
  call_release release result heap =
      if release == free_result_memory
      then evmc_free_result_memory result heap
      else outside release result heap

  unfoldable pub evmc_release_result : EvmcResult → Heap → Heap
  unfolding call_release
  evmc_release_result result heap = elim (result.release) [
    | none ↦ heap
    | some release ↦ call_release release result heap
  ]
