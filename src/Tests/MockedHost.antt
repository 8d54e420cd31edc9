-- ===== src/Tests/MockedHost.antt =====
-- The mocked host on small hosts.
use evmc.Base.{ℕ, ◌+◌, ◌≡◌, ◌↔◌, refl, none, some, List, [], ◌∷◌, length, take, drop, arith}
use evmc.Base.Int.{pos}
use evmc.Evmc.{StatusCode}
use evmc.Evmc.Messages.{Message, outside, call_kind, TxContext, EvmcResult}
use evmc.MockedHost.Types.{StorageStatus, MockedHost, deleted, deleted_added, cold, new_account}
use evmc.MockedHost.Status.{storage_status}
use evmc.MockedHost.Status.Laws.{Means, storage_status-Means}
use evmc.MockedHost.Storage.{storage_entry, get_storage, set_storage, record_account_access}
use evmc.MockedHost.Storage.Laws.{set_storage-get_storage}
use evmc.MockedHost.Storage.Net.{
  set_each, set_each-net, cleared, dirty, total, clears, unclears, changes, restores,
}
use evmc.MockedHost.Map.{find}
use evmc.MockedHost.Accounts.{copy_code}
use evmc.MockedHost.Accounts.Laws.{copy_code_lem}
use evmc.MockedHost.Calls.{call}
use evmc.MockedHost.Calls.Laws.{IsWellFormed}
use evmc.MockedHost.Steps.{by_call, next, stop, Steps-IsWellFormed}

abbrev no_result : EvmcResult
no_result = record {
  status_code = StatusCode.success;
  gas_left = pos 0;
  gas_refund = pos 0;
  output_data = none;
  output_size = 0;
  release = none;
  create_address = 0;
}

abbrev pub no_context : TxContext
no_context = record {
  tx_gas_price = 0;
  tx_origin = 0;
  block_coinbase = 0;
  block_number = pos 0;
  block_timestamp = pos 0;
  block_gas_limit = pos 0;
  block_prev_randao = 0;
  chain_id = 0;
  block_base_fee = 0;
  blob_base_fee = 0;
  blob_hashes = none;
  blob_hashes_count = 0;
  initcodes = none;
  initcodes_count = 0;
}

-- A host with one account, 5, that has the value 9 in the slot 1.
abbrev pub small_host : MockedHost
small_host = record {
  accounts =
      (
        5,
        record new_account {
          storage = (1, record { current = 9; original = 9; access_status = cold }) ∷ [];
        },
      )
      ∷ [];
  tx_context = no_context;
  block_hash = 0;
  call_result = no_result;
  recorded_blockhashes = [];
  recorded_account_accesses = [];
  recorded_calls = [];
  m_recorded_calls_inputs = [];
  recorded_logs = [];
  recorded_selfdestructs = [];
}

-- The slot is cleared, set anew and restored.
abbrev three_values : List ℕ
three_values = 0 ∷ 3 ∷ 9 ∷ []

set_each_run :
    (statuses : List StorageStatus) × (h : MockedHost) × (set_each 5 1 three_values small_host
      ≡ some (statuses, h))
unfolding set_each set_storage
set_each_run = (deleted ∷ deleted_added ∷ StorageStatus.modified_restored ∷ [], _, refl)

storage_status-Means_example :
    (storage_status 9 0 3 ≡ some deleted_added) ↔ Means deleted_added 9 0 3
storage_status-Means_example = storage_status-Means 9 0 3 deleted_added

set_storage-get_storage_example :
    (status : StorageStatus) × (h' : MockedHost) × (set_storage 5 1 0 small_host
      ≡ some (status, h'))
    × Means status 9 9 0
    × ((get_storage 5 1 h').0 ≡ 0)
unfolding storage_entry
set_storage-get_storage_example = set_storage-get_storage 5 1 0 5 1 small_host

set_each-net_example :
    (statuses : List StorageStatus) × (h' : MockedHost) × (set_each 5 1 three_values small_host
      ≡ some (statuses, h'))
    × (let s = storage_entry 5 1 small_host in
        let s' = storage_entry 5 1 h' in
        (s'.original ≡ s.original)
        × (s'.current ≡ 9)
        × (cleared s + total clears statuses ≡ cleared s' + total unclears statuses)
        × (dirty s + total changes statuses ≡ dirty s' + total restores statuses))
set_each-net_example = set_each-net 5 1 three_values small_host

-- A host with the code 7, 8, 9 at the address 6.
abbrev code_host : MockedHost
code_host = record small_host { accounts = (6, record new_account { code = 7 ∷ 8 ∷ 9 ∷ [] }) ∷ [] }

copy_code_lem_example :
    let ((n, memory), h') = copy_code 6 1 (0 ∷ 0 ∷ 0 ∷ []) 3 code_host in
    (n ≡ 2)
    × (length memory ≡ 3)
    × (take n memory ≡ take n (8 ∷ 9 ∷ []))
    × (drop n memory ≡ drop n (0 ∷ 0 ∷ 0 ∷ []))
    × (h' ≡ record_account_access 6 code_host)
unfolding find
copy_code_lem_example = copy_code_lem 6 1 (0 ∷ 0 ∷ 0 ∷ []) 3 code_host (omega arith)

abbrev small_message : Message
small_message = record {
  kind = call_kind;
  flags = 0;
  depth = pos 0;
  gas = pos 100;
  recipient = 5;
  sender = 6;
  input_data = outside (some 4096);
  input_size = 2;
  value = 0;
  create2_salt = 0;
  code_address = 5;
  code = none;
  code_size = 0;
}

abbrev after_call : MockedHost
after_call = (call small_message (1 ∷ 2 ∷ []) small_host).1

Steps-IsWellFormed_example : IsWellFormed ((small_message, 1 ∷ 2 ∷ []) ∷ []) after_call
Steps-IsWellFormed_example =
    Steps-IsWellFormed [] ((small_message, 1 ∷ 2 ∷ []) ∷ []) small_host after_call
      (next small_host after_call after_call ((small_message, 1 ∷ 2 ∷ []) ∷ []) []
        (by_call small_message (1 ∷ 2 ∷ []) small_host refl) (stop after_call))
      (omega arith, omega arith, omega arith, tt)
