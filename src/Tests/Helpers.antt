-- ===== src/Tests/Helpers.antt =====
-- The helpers on concrete results and codes.
use evmc.Base.{ℕ, ◌≡◌, ◌≢◌, ◌⊎◌, Option, none, some, [], ◌∷◌}
use evmc.Base.Int.{pos}
use evmc.Evmc.{StatusCode}
use evmc.Evmc.Messages.{EvmcResult}
use evmc.Helpers.Result.{Heap, zeroed_result, evmc_make_result, evmc_release_result}
use evmc.Helpers.Result.Laws.{block, evmc_make_result-release}

-- Every block of memory is given at 64; the release function stands at 8.
abbrev malloc : Heap → ℕ → Option ℕ
malloc heap size = some 64

abbrev no_release : ℕ → EvmcResult → Heap → Heap
no_release f result heap = heap

evmc_make_result-release_example :
    let (r, heap') =
      evmc_make_result malloc 8 StatusCode.revert (pos 3) (pos 0) (5 ∷ 6 ∷ []) 2 [] in
    (((r.status_code ≡ StatusCode.revert)
        × (r.gas_left ≡ pos 3)
        × (r.gas_refund ≡ pos 0)
        × (r.output_size ≡ 2)
        × (block heap' r.output_data ≡ 5 ∷ 6 ∷ []))
      ⊎ ((◌≢◌ {A = ℕ} 2 0)
          × (malloc [] 2 ≡ none)
          × (r ≡ record zeroed_result { status_code = StatusCode.out_of_memory })))
    × (evmc_release_result no_release 8 r heap' ≡ [])
evmc_make_result-release_example =
    evmc_make_result-release malloc 8 no_release StatusCode.revert (pos 3) (pos 0) (5 ∷ 6 ∷ []) 2 []
