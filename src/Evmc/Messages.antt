-- ===== src/Evmc/Messages.antt =====
-- The structures that host and VM exchange: `evmc_message`, `evmc_tx_context` and `evmc_result` of
-- include/evmc/evmc.h. A pointer is a number, and `none` where it is null; a fixed-size byte array is
-- the number that it is in big endian order.
use evmc.Base.{ℕ, Option}
use evmc.Base.Int.{ℤ}
use evmc.Evmc.{StatusCode}

-- `enum evmc_call_kind`
pub data CallKind : Type 0 where
  call_kind delegatecall callcode create create2 eofcreate : CallKind

-- `evmc_message::input_data`: a pointer into the sender's memory, or to one of the copies that a host
-- keeps of inputs, with its index.
pub data InputPointer : Type 0 where
  outside : Option ℕ → InputPointer
  copied : ℕ → InputPointer

pub record Message : Type 0 where
  pub kind : CallKind
  pub flags : ℕ
  pub depth : ℤ
  pub gas : ℤ
  pub recipient : ℕ
  pub sender : ℕ
  pub input_data : InputPointer
  pub input_size : ℕ
  pub value : ℕ
  pub create2_salt : ℕ
  pub code_address : ℕ
  pub code : Option ℕ
  pub code_size : ℕ

pub record TxContext : Type 0 where
  pub tx_gas_price : ℕ
  pub tx_origin : ℕ
  pub block_coinbase : ℕ
  pub block_number : ℤ
  pub block_timestamp : ℤ
  pub block_gas_limit : ℤ
  pub block_prev_randao : ℕ
  pub chain_id : ℕ
  pub block_base_fee : ℕ
  pub blob_base_fee : ℕ
  pub blob_hashes : Option ℕ
  pub blob_hashes_count : ℕ
  pub initcodes : Option ℕ
  pub initcodes_count : ℕ

-- `release` is the pointer to the release function.
pub record EvmcResult : Type 0 where
  pub status_code : StatusCode
  pub gas_left : ℤ
  pub gas_refund : ℤ
  pub output_data : Option ℕ
  pub output_size : ℕ
  pub release : Option ℕ
  pub create_address : ℕ
