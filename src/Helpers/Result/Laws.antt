-- ===== src/Helpers/Result/Laws.antt =====
-- A result made by `evmc_make_result`, and what its release leaves.
use evmc.Base.{
  ℕ, ◌≡◌, ◌≢◌, ◌⊎◌, inl, inr, refl, Option, none, some, List, [], ◌∷◌, take, ◌==◌, if◌then◌else◌,
  arith, Option-cases, Bool-cases,
}
use evmc.Base.Int.{ℤ}
use evmc.Evmc.{StatusCode}
use evmc.Evmc.Messages.{EvmcResult}
use evmc.Helpers.Result.{Heap, free_block, zeroed_result, evmc_make_result, evmc_release_result}

-- The bytes that a pointer leads to, in the live block there.
unfoldable pub block : Heap → Option ℕ → List ℕ
block heap none = []
block [] (some p) = []
block ((q, bytes) ∷ heap) (some p) = if q == p then bytes else block heap (some p)

module _ (malloc : Heap → ℕ → Option ℕ) (free_result_memory : ℕ)
    (outside : ℕ → EvmcResult → Heap → Heap) where
  -- A result is made with the given status, gas and output, which is a copy in its own block, or, if
  -- an output is given and `malloc` fails, all its fields are zero but for the status, which is out
  -- of memory. Releasing it frees exactly what making it allocated: the heap is the one before.
  pub evmc_make_result-release :
      (status : StatusCode) (left refund : ℤ) (output : List ℕ) (size : ℕ) (heap : Heap)
      → let (r, heap') =
          evmc_make_result malloc free_result_memory status left refund output size heap in
        (((r.status_code ≡ status)
            × (r.gas_left ≡ left)
            × (r.gas_refund ≡ refund)
            × (r.output_size ≡ size)
            × (block heap' r.output_data ≡ take size output))
          ⊎ ((size ≢ 0)
              × (malloc heap size ≡ none)
              × (r ≡ record zeroed_result { status_code = StatusCode.out_of_memory })))
        × (evmc_release_result outside free_result_memory r heap' ≡ heap)
  unfolding evmc_make_result evmc_release_result free_block block
  evmc_make_result-release status left refund output size heap = elim (Bool-cases (size == 0)) [
    | inl e ↦
        let zero : size ≡ 0 = ground arith in rw zero (inl (refl, refl, refl, refl, refl), refl)
    | inr e ↦ elim (Option-cases (malloc heap size)) [
      | inl failed ↦ rw (e, failed, evmc_make_result) (inr (ground arith, refl, refl), refl)
      | inr (p, made) ↦
          rw (e, made, evmc_make_result) (inl (refl, refl, refl, refl, ground arith), ground arith)
    ]
  ]
