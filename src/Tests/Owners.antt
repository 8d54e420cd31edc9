-- ===== src/Tests/Owners.antt =====
-- Objects that own results and instances: short sequences of operations.
use evmc.Base.{ℕ, ◌+◌, ◌≡◌, refl, true, Option, some, List, [], ◌∷◌}
use evmc.Evmc.Messages.{EvmcResult}
use evmc.Helpers.Result.{zeroed_result}
use evmc.Owners.{
  Scope, Operation, construct, destruct, move_construct, move_assign, release_raw, perform_each,
  owns_result, results, owns_instance, instances,
}
use evmc.Owners.Count.{count, count_objects}
use evmc.Owners.Balance.{acquired, results-balance, instances-balance}

abbrev owned_result : EvmcResult
owned_result = record zeroed_result { output_data = some 64; output_size = 2; release = some 8 }

-- A result moves from one object to another, over a second one, and is handed out.
abbrev moves : List (Operation EvmcResult)
moves =
    construct 0 owned_result
    ∷ construct 1 owned_result
    ∷ move_assign 1 0
    ∷ destruct 0
    ∷ release_raw 1
    ∷ destruct 1
    ∷ []

abbrev after_moves : Scope EvmcResult
after_moves = record { objects = []; released = owned_result ∷ [] }

results-balance_example :
    count owns_result (λ r. true) (acquired moves)
    ≡ count_objects owns_result (λ r. true) after_moves.objects
      + count owns_result (λ r. true) after_moves.released
      + count owns_result (λ r. true) (owned_result ∷ [])
results-balance_example =
    results-balance (λ r. true) moves after_moves (owned_result ∷ [])
      (unfold results perform_each in refl)

abbrev lives : List (Operation (Option ℕ))
lives = construct 0 (some 64) ∷ move_construct 1 0 ∷ destruct 0 ∷ destruct 1 ∷ []

abbrev after_lives : Scope (Option ℕ)
after_lives = record { objects = []; released = some 64 ∷ [] }

instances-balance_example :
    count owns_instance (λ vm. true) (acquired lives)
    ≡ count_objects owns_instance (λ vm. true) after_lives.objects
      + count owns_instance (λ vm. true) after_lives.released
instances-balance_example =
    instances-balance (λ vm. true) lives after_lives (unfold instances perform_each in refl)
