-- ===== src/Evmc/Host.antt =====
-- `struct evmc_host_interface` of include/evmc/evmc.h: what a VM calls back. The context is the state
-- `S` of the host, and each function gives the state after its call. An address or a word is a
-- number.
use evmc.Base.{ℕ, Bool, Option, List}
use evmc.Base.Int.{ℤ}
use evmc.Evmc.Messages.{Message, TxContext, EvmcResult}
use evmc.MockedHost.Types.{StorageStatus, AccessStatus}

-- A message comes with the bytes of its input. `none` is a host that aborts in `set_storage`, as the
-- assertion of the mocked host does; the other functions are taken to return.
pub record HostInterface (S : Type 0) : Type 0 where
  pub account_exists : ℕ → S → Bool × S
  pub get_storage : ℕ → ℕ → S → ℕ × S
  pub set_storage : ℕ → ℕ → ℕ → S → Option (StorageStatus × S)
  pub get_balance : ℕ → S → ℕ × S
  pub get_code_size : ℕ → S → ℕ × S
  pub get_code_hash : ℕ → S → ℕ × S
  pub copy_code : ℕ → ℕ → List ℕ → ℕ → S → (ℕ × List ℕ) × S
  pub selfdestruct : ℕ → ℕ → S → Bool × S
  pub call : Message → List ℕ → S → EvmcResult × S
  pub get_tx_context : S → TxContext × S
  pub get_block_hash : ℤ → S → ℕ × S
  pub emit_log : ℕ → List ℕ → List ℕ → S → S
  pub access_account : ℕ → S → AccessStatus × S
  pub access_storage : ℕ → ℕ → S → AccessStatus × S
  pub get_transient_storage : ℕ → ℕ → S → ℕ × S
  pub set_transient_storage : ℕ → ℕ → ℕ → S → S
