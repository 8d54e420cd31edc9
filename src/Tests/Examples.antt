-- ===== src/Tests/Examples.antt =====
-- The example host and the example VM of precompiled contracts on small inputs.
use evmc.Base.{
  ℕ, ◌+◌, ◌*◌, ◌<◌, ◌^◌, ◌≡◌, ◌≢◌, ◌⊎◌, ◌↔◌, ◌&&◌, ◌==◌, refl, true, false, some, List, [], ◌∷◌,
  ltb, if◌then◌else◌, arith,
}
use evmc.Base.Int.{pos}
use evmc.Evmc.{StatusCode, Revision}
use evmc.Evmc.Messages.{Message}
use evmc.Helpers.Result.{Heap}
use evmc.MockedHost.Types.{assigned, modified}
use evmc.ExampleHost.{ExampleHost, get_storage, set_storage, code_hash, default_account}
use evmc.ExampleHost.Laws.{set_storage_lem}
use evmc.PrecompilesVm.{gas_cost, execute_identity, execute_contract, execute}
use evmc.PrecompilesVm.Laws.{execute-contract, execute_identity_lem}
use evmc.Tests.MockedHost.{no_context}
use evmc.Tests.ExampleVm.{message}

abbrev empty_host : ExampleHost
empty_host = record { accounts = []; tx_context = no_context }

code_hash_run : code_hash (record default_account { code = 0 ∷ 33 ∷ 65 ∷ [] }) ≡ 96 * 2 ^ 240
unfolding code_hash evmc.Base.Words.word_of_bytes
code_hash_run = refl

set_storage_lem_example :
    let made = set_storage 5 1 7 empty_host in
    ((made.0 ≡ assigned) ↔ (get_storage 5 1 empty_host ≡ 7))
    × ((made.0 ≡ modified) ↔ (get_storage 5 1 empty_host ≢ 7))
    × (get_storage 5 1 made.1 ≡ 7)
set_storage_lem_example = set_storage_lem 5 1 7 5 1 empty_host

-- The first free number is the address of a new array.
abbrev new_array : Heap → ℕ → ℕ
new_array heap n = 4096

abbrev identity_message : Message
identity_message = record message { gas = pos 20; input_size = 2; code_address = 4 }

execute-contract_example :
    execute new_array 8 Revision.berlin identity_message (6 ∷ 7 ∷ []) []
    ≡ execute_contract new_array 8 4 Revision.berlin identity_message (6 ∷ 7 ∷ []) []
execute-contract_example =
    execute-contract new_array 8 Revision.berlin identity_message (6 ∷ 7 ∷ []) [] (omega arith)

execute_identity_lem_example :
    let r = execute_identity new_array 8 identity_message (6 ∷ 7 ∷ []) [] in
    ((20 < gas_cost 2)
      × (r.0.status_code ≡ StatusCode.out_of_gas)
      × (r.0.gas_left ≡ pos 0)
      × (r.1 ≡ []))
    ⊎ ((left : ℕ) × (20 ≡ left + gas_cost 2)
        × (r.0.status_code ≡ StatusCode.success)
        × (r.0.gas_left ≡ pos left)
        × (r.0.output_size ≡ 2)
        × (r.0.release ≡ some 8)
        × (block : ℕ) × (r.0.output_data ≡ some block)
        × (r.1 ≡ (block, 6 ∷ 7 ∷ []) ∷ []))
execute_identity_lem_example =
    execute_identity_lem new_array 8 20 identity_message (6 ∷ 7 ∷ []) [] refl refl
