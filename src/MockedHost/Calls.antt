-- ===== src/MockedHost/Calls.antt =====
-- The methods of `MockedHost` on calls, blocks and logs.
pub mod Laws
use evmc.Base.{ℕ, List, [], ◌∷◌, ◌++◌, length, ltb, if◌then◌else◌}
use evmc.Base.Int.{ℤ}
use evmc.Evmc.Messages.{Message, copied, TxContext, EvmcResult}
use evmc.MockedHost.Types.{Word, LogRecord, MockedHost, max_recorded_calls}
use evmc.MockedHost.Storage.{record_account_access}

-- `recorded_calls.emplace_back(msg)` and the copy of the input. `input` is the memory that
-- `msg.input_data` points to.
unfoldable pub record_call : Message → List ℕ → MockedHost → MockedHost
record_call msg input h =
    if ltb 0 msg.input_size
    then record h {
      recorded_calls =
          h.recorded_calls
          ++ (record msg { input_data = copied (length h.m_recorded_calls_inputs) } ∷ []);
      m_recorded_calls_inputs = h.m_recorded_calls_inputs ++ (input ∷ []);
    }
    else record h { recorded_calls = h.recorded_calls ++ (msg ∷ []) }

unfoldable pub call : Message → List ℕ → MockedHost → EvmcResult × MockedHost
unfolding record_account_access record_call
call msg input h =
    let h = record_account_access msg.recipient h in
    let recorded = record_call msg input h in
    (h.call_result, (if ltb (length h.recorded_calls) max_recorded_calls then recorded else h))

unfoldable pub get_tx_context : MockedHost → TxContext
get_tx_context h = h.tx_context

unfoldable pub get_block_hash : ℤ → MockedHost → Word × MockedHost
get_block_hash block_number h = (
  h.block_hash,
  record h { recorded_blockhashes = h.recorded_blockhashes ++ (block_number ∷ []) },
)

unfoldable pub emit_log : Word → List ℕ → List Word → MockedHost → MockedHost
emit_log addr bytes topics h = record h {
  recorded_logs =
      h.recorded_logs ++ (record { creator = addr; data_of_log = bytes; topics = topics } ∷ []);
}
