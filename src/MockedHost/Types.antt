-- ===== src/MockedHost/Types.antt =====
-- The data of include/evmc/mocked_host.hpp, and the structures of include/evmc/evmc.h that it keeps.
use evmc.Base.{ℕ, List, []}
use evmc.Base.Int.{ℤ, pos}
use evmc.Evmc.Messages.{Message, TxContext, EvmcResult}
use evmc.MockedHost.Map.{Map}

-- `enum evmc_storage_status`
pub data StorageStatus : Type 0 where
  assigned added deleted modified : StorageStatus
  deleted_added modified_deleted deleted_restored added_deleted modified_restored : StorageStatus

-- `enum evmc_access_status`
pub data AccessStatus : Type 0 where
  cold warm : AccessStatus

-- An `address` and a `bytes32` are the numbers that they are in big endian order: the comparison of
-- their bytes is that of the numbers, and the default is 0.
abbrev pub Word : Type 0
Word = ℕ

pub record StorageValue : Type 0 where
  pub current : Word
  pub original : Word
  pub access_status : AccessStatus

abbrev pub new_storage_value : StorageValue
new_storage_value = record { current = 0; original = 0; access_status = cold }

pub record MockedAccount : Type 0 where
  pub nonce : ℤ
  pub code : List ℕ
  pub codehash : Word
  pub balance : Word
  pub storage : Map StorageValue
  pub transient_storage : Map Word

abbrev pub new_account : MockedAccount
new_account = record {
  nonce = pos 0;
  code = [];
  codehash = 0;
  balance = 0;
  storage = [];
  transient_storage = [];
}

pub record LogRecord : Type 0 where
  pub creator : Word
  pub data_of_log : List ℕ
  pub topics : List Word

-- The state of `MockedHost`, with its private `m_recorded_calls_inputs`.
pub record MockedHost : Type 0 where
  pub accounts : Map MockedAccount
  pub tx_context : TxContext
  pub block_hash : Word
  pub call_result : EvmcResult
  pub recorded_blockhashes : List ℤ
  pub recorded_account_accesses : List Word
  pub recorded_calls : List Message
  pub m_recorded_calls_inputs : List (List ℕ)
  pub recorded_logs : List LogRecord
  pub recorded_selfdestructs : Map (List Word)

abbrev pub max_recorded_account_accesses : ℕ
max_recorded_account_accesses = 200

abbrev pub max_recorded_calls : ℕ
max_recorded_calls = 100
