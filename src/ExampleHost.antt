-- ===== src/ExampleHost.antt =====
-- examples/example_host.cpp: `ExampleHost`, a host that keeps accounts with their storage. A `std::map`
-- is the list of its entries, and a word the number that its bytes are in big endian order.
pub mod Laws
use Prim.Native.Nat.{bit_xor}
use evmc.Base.{
  ℕ, zero, suc, ◌+◌, ◌-◌, ◌%◌, Bool, true, false, not, ◌&&◌, Option, none, some, List, [], ◌∷◌,
  ◌++◌, length, take, drop, replicate, ltb, leb, ◌==◌, if◌then◌else◌,
}
use evmc.Base.Int.{ℤ, pos, lt_ℤ, sub_ℕ}
use evmc.Base.Words.{word_of_bytes}
use evmc.Evmc.{StatusCode}
use evmc.Evmc.Messages.{Message, TxContext, EvmcResult}
use evmc.Evmc.Host.{HostInterface}
use evmc.Helpers.Result.{Heap, evmc_make_result}
use evmc.MockedHost.Map.{Map, find, update, value_or}
use evmc.MockedHost.Types.{Word, StorageStatus, assigned, modified, AccessStatus, cold}

pub record Account : Type 0 where
  pub balance : Word
  pub code : List ℕ
  pub storage : Map Word
  pub transient_storage : Map Word

abbrev pub default_account : Account
default_account = record { balance = 0; code = []; storage = []; transient_storage = [] }

-- `bytes[i] ^= v`
unfoldable pub xor_at : ℕ → ℕ → List ℕ → List ℕ
xor_at i v [] = []
xor_at zero v (b ∷ bytes) = bit_xor b v ∷ bytes
xor_at (suc i) v (b ∷ bytes) = b ∷ xor_at i v bytes

-- The loop over the code, for an array `ret` of 32 bytes.
unfoldable pub hash_loop : List ℕ → List ℕ → List ℕ
unfolding xor_at
hash_loop [] ret = ret
hash_loop (v ∷ code) ret = hash_loop code (xor_at (v % 32) v ret)

unfoldable pub code_hash : Account → Word
unfolding hash_loop
code_hash account = word_of_bytes (hash_loop account.code (replicate 32 0))

pub record ExampleHost : Type 0 where
  pub accounts : Map Account
  pub tx_context : TxContext

unfoldable pub account_exists : Word → ExampleHost → Bool
unfolding find
account_exists addr host = elim (find host.accounts addr) [ none ↦ false | some account ↦ true ]

unfoldable pub get_storage : Word → Word → ExampleHost → Word
unfolding find
get_storage addr key host = elim (find host.accounts addr) [
  | none ↦ 0
  | some account ↦ elim (find account.storage key) [ some value ↦ value | none ↦ 0 ]
]

unfoldable pub set_storage : Word → Word → Word → ExampleHost → StorageStatus × ExampleHost
unfolding find update
set_storage addr key value host =
    let account = value_or default_account (find host.accounts addr) in
    let prev_value = value_or 0 (find account.storage key) in
    let write = λ (a : Account). record a { storage = update 0 (λ old. value) key a.storage } in
    (
      (if prev_value == value then assigned else modified),
      record host { accounts = update default_account write addr host.accounts },
    )

unfoldable pub get_balance : Word → ExampleHost → Word
unfolding find
get_balance addr host = elim (find host.accounts addr) [ none ↦ 0 | some a ↦ a.balance ]

unfoldable pub get_code_size : Word → ExampleHost → ℕ
unfolding find
get_code_size addr host = elim (find host.accounts addr) [ none ↦ 0 | some a ↦ length a.code ]

unfoldable pub get_code_hash : Word → ExampleHost → Word
unfolding find code_hash
get_code_hash addr host = elim (find host.accounts addr) [ none ↦ 0 | some a ↦ code_hash a ]

abbrev min : ℕ → ℕ → ℕ
min a b = if ltb b a then b else a

-- `buffer` is the memory from `buffer_data` on.
unfoldable pub copy_code : Word → ℕ → List ℕ → ℕ → ExampleHost → ℕ × List ℕ
unfolding find
copy_code addr code_offset buffer buffer_size host = elim (find host.accounts addr) [
  | none ↦ (0, buffer)
  | some account ↦
      if leb (length account.code) code_offset
      then (0, buffer)
      else (let n = min buffer_size (length account.code - code_offset) in
          if ltb 0 n
          then (n, take n (drop code_offset account.code) ++ drop n buffer)
          else (n, buffer))
]

-- The two literals: the hash of a recent block, and zero.
abbrev pub recent_block_hash : Word
recent_block_hash = 0xb10c8a5fb10c8a5fb10c8a5fb10c8a5fb10c8a5fb10c8a5fb10c8a5fb10c8a5f

unfoldable pub get_block_hash : ℤ → ExampleHost → Word
get_block_hash number host =
    let current_block_number = host.tx_context.block_number in
    if lt_ℤ number current_block_number && not (lt_ℤ number (sub_ℕ current_block_number 256))
    then recent_block_hash
    else 0

unfoldable pub get_transient_storage : Word → Word → ExampleHost → Word
unfolding find
get_transient_storage addr key host = elim (find host.accounts addr) [
  | none ↦ 0
  | some account ↦ elim (find account.transient_storage key) [ some value ↦ value | none ↦ 0 ]
]

unfoldable pub set_transient_storage : Word → Word → Word → ExampleHost → ExampleHost
unfolding update
set_transient_storage addr key value host =
    let write = λ (a : Account). record a {
      transient_storage = update 0 (λ old. value) key a.transient_storage;
    } in
    record host { accounts = update default_account write addr host.accounts }

-- `malloc` and the pointer to `evmc_free_result_memory`, for the result that a call makes. The state is
-- that of the host and the heap.
module _ (malloc : Heap → ℕ → Option ℕ) (free_result_memory : ℕ) where
  unfoldable pub call : Message → List ℕ → Heap → EvmcResult × Heap
  unfolding evmc_make_result
  call msg input heap =
      evmc_make_result malloc free_result_memory StatusCode.revert msg.gas (pos 0) input
        msg.input_size heap

  -- `example_host_get_interface`: the methods of the class, for the context of an `ExampleHost`.
  abbrev pub interface : HostInterface (ExampleHost × Heap)
  interface = record {
    account_exists = λ addr s. (account_exists addr s.0, s);
    get_storage = λ addr key s. (get_storage addr key s.0, s);
    set_storage =
        λ addr key value s. (let r = set_storage addr key value s.0 in some (r.0, (r.1, s.1)));
    get_balance = λ addr s. (get_balance addr s.0, s);
    get_code_size = λ addr s. (get_code_size addr s.0, s);
    get_code_hash = λ addr s. (get_code_hash addr s.0, s);
    copy_code = λ addr offset buffer size s. (copy_code addr offset buffer size s.0, s);
    selfdestruct = λ addr beneficiary s. (false, s);
    call = λ msg input s. (let r = call msg input s.1 in (r.0, (s.0, r.1)));
    get_tx_context = λ s. (s.0.tx_context, s);
    get_block_hash = λ number s. (get_block_hash number s.0, s);
    emit_log = λ addr bytes topics s. s;
    access_account = λ addr s. (cold, s);
    access_storage = λ addr key s. (cold, s);
    get_transient_storage = λ addr key s. (get_transient_storage addr key s.0, s);
    set_transient_storage = λ addr key value s. (set_transient_storage addr key value s.0, s.1);
  }
