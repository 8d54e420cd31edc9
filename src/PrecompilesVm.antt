-- ===== src/PrecompilesVm.antt =====
-- examples/example_precompiles_vm/example_precompiles_vm.cpp: a VM of precompiled contracts.
pub mod Laws
use Prim.Native.Nat.{bit_or}
use evmc.Base.{
  ℕ, zero, suc, ◌+◌, ◌-◌, ◌*◌, ◌/◌, ◌^◌, Bool, true, false, not, ◌||◌, Option, none, some, List, [],
  ◌∷◌, take, get_elem?, ltb, ◌==◌, if◌then◌else◌,
}
use evmc.Base.Int.{ℤ, pos, lt_ℤ, sub_ℕ}
use evmc.Base.Words.{bytes_of_word}
use evmc.Evmc.{StatusCode, Revision, revision_value}
use evmc.Evmc.Messages.{Message, EvmcResult}
use evmc.Helpers.Result.{Heap, zeroed_result}

abbrev pub gas_cost : ℕ → ℕ
gas_cost input_size = 15 + 3 * ((input_size + 31) / 32)

unfoldable pub execute_empty : Message → EvmcResult
execute_empty msg = record zeroed_result { status_code = StatusCode.success; gas_left = msg.gas }

unfoldable pub not_implemented : EvmcResult
not_implemented = record zeroed_result { status_code = StatusCode.rejected }

-- `std::any_of` with the test for a byte that is not zero
unfoldable pub any_nonzero : List ℕ → Bool
any_nonzero [] = false
any_nonzero (x ∷ bytes) = not (x == 0) || any_nonzero bytes

abbrev pub prefix_size : ℕ
prefix_size = 18

-- `bytes[i]` of an array of which `i` is an index
unfoldable pub byte_at : List ℕ → ℕ → ℕ
byte_at bytes i = elim (get_elem? bytes i) [ none ↦ 0 | some b ↦ b ]

unfoldable pub contract_id : List ℕ → ℕ
unfolding byte_at
contract_id bytes = bit_or (byte_at bytes prefix_size * 2 ^ 8) (byte_at bytes (prefix_size + 1))

-- `new uint8_t[n]`, and the release function, which deletes the output. `input` is the memory that the
-- message's input leads to. Numbers out of the range of int64_t are not wrapped: an `input_size` that
-- exceeds the range is no size of an array.
module _ (new_array : Heap → ℕ → ℕ) (delete_output : ℕ) where
  unfoldable pub execute_identity : Message → List ℕ → Heap → EvmcResult × Heap
  execute_identity msg input heap =
      let gas_left = sub_ℕ msg.gas (gas_cost msg.input_size) in
      if lt_ℤ gas_left (pos 0)
      then (record zeroed_result { status_code = StatusCode.out_of_gas }, heap)
      else (let block = new_array heap msg.input_size in
          (
            record zeroed_result {
              status_code = StatusCode.success;
              output_data = some block;
              output_size = msg.input_size;
              release = some delete_output;
              gas_left = gas_left;
            },
            (block, take msg.input_size input) ∷ heap,
          ))

  -- The `switch` on the id.
  unfoldable pub execute_contract : ℕ → Revision → Message → List ℕ → Heap → EvmcResult × Heap
  unfolding execute_identity execute_empty not_implemented
  execute_contract id rev msg input heap =
      if id == 1 || (id == 2 || id == 3)
      then (not_implemented, heap)
      else if id == 4
      then execute_identity msg input heap
      else if id == 5 || (id == 6 || (id == 7 || id == 8))
      then (if ltb (revision_value rev) (revision_value Revision.byzantium)
          then (execute_empty msg, heap)
          else (not_implemented, heap))
      else (execute_empty msg, heap)

  unfoldable pub execute : Revision → Message → List ℕ → Heap → EvmcResult × Heap
  unfolding any_nonzero contract_id execute_contract
  execute rev msg input heap =
      let bytes = bytes_of_word 20 msg.code_address in
      if any_nonzero (take prefix_size bytes)
      then (record zeroed_result { status_code = StatusCode.rejected }, heap)
      else execute_contract (contract_id bytes) rev msg input heap
