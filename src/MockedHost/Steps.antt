-- ===== src/MockedHost/Steps.antt =====
-- The calls that a VM makes of the host, in any order: a step for each method of `MockedHost` that
-- changes it.
use evmc.Base.{arith, ℕ, ◌≡◌, sym, some, List, [], ◌∷◌, ◌++◌, length, append-nil, append_assoc}
use evmc.Base.Int.{ℤ}
use evmc.Evmc.Messages.{Message}
use evmc.MockedHost.Types.{Word, StorageStatus, MockedHost}
use evmc.MockedHost.Storage.{
  write_storage_entry, get_storage, set_storage, access_storage, get_transient_storage,
  set_transient_storage,
}
use evmc.MockedHost.Storage.Laws.{set_storage_after}
use evmc.MockedHost.Accounts.{
  account_exists, get_balance, get_code_size, get_code_hash, copy_code, selfdestruct,
  access_account,
}
use evmc.MockedHost.Calls.{call, get_block_hash, emit_log}
use evmc.MockedHost.Calls.Laws.{IsWellFormed, record_account_access-IsWellFormed, call-IsWellFormed}

-- A message of `call`, with the memory that its input points to.
abbrev pub Made : Type 0
Made = List (Message × List ℕ)

-- One call, from the host before it to the host after it, and the message of it if it is one of
-- `call`. The memory that the input of a message points to has the size that the message says.
pub data Step : MockedHost → Made → MockedHost → Type 0 where
  by_account_exists : (addr : Word) (h : MockedHost) → Step h [] (account_exists addr h).1
  by_get_storage : (addr key : Word) (h : MockedHost) → Step h [] (get_storage addr key h).1
  by_set_storage :
      (addr key value : Word) (status : StorageStatus) (h h' : MockedHost)
      → set_storage addr key value h ≡ some (status, h')
      → Step h [] h'
  by_get_balance : (addr : Word) (h : MockedHost) → Step h [] (get_balance addr h).1
  by_get_code_size : (addr : Word) (h : MockedHost) → Step h [] (get_code_size addr h).1
  by_get_code_hash : (addr : Word) (h : MockedHost) → Step h [] (get_code_hash addr h).1
  by_copy_code :
      (addr : Word) (code_offset : ℕ) (buffer : List ℕ) (buffer_size : ℕ) (h : MockedHost)
      → Step h [] (copy_code addr code_offset buffer buffer_size h).1
  by_selfdestruct :
      (addr beneficiary : Word) (h : MockedHost) → Step h [] (selfdestruct addr beneficiary h).1
  by_call :
      (msg : Message) (input : List ℕ) (h : MockedHost)
      → length input ≡ msg.input_size
      → Step h ((msg, input) ∷ []) (call msg input h).1
  by_get_block_hash :
      (block_number : ℤ) (h : MockedHost) → Step h [] (get_block_hash block_number h).1
  by_emit_log :
      (addr : Word) (bytes : List ℕ) (topics : List Word) (h : MockedHost)
      → Step h [] (emit_log addr bytes topics h)
  by_access_account : (addr : Word) (h : MockedHost) → Step h [] (access_account addr h).1
  by_access_storage : (addr key : Word) (h : MockedHost) → Step h [] (access_storage addr key h).1
  by_get_transient_storage :
      (addr key : Word) (h : MockedHost) → Step h [] (get_transient_storage addr key h).1
  by_set_transient_storage :
      (addr key value : Word) (h : MockedHost) → Step h [] (set_transient_storage addr key value h)

-- Calls one after the other, with the messages of those of `call` in their order.
pub data Steps : MockedHost → Made → MockedHost → Type 0 where
  stop : (h : MockedHost) → Steps h [] h
  next :
      (h h1 h2 : MockedHost) (made others : Made)
      → Step h made h1
      → Steps h1 others h2
      → Steps h (made ++ others) h2

Step-keeps :
    (before made : Made) (h h' : MockedHost)
    → Step h made h'
    → IsWellFormed before h
    → IsWellFormed (before ++ made) h'
unfolding account_exists get_storage get_balance get_code_size get_code_hash copy_code selfdestruct
    get_block_hash emit_log access_account access_storage write_storage_entry get_transient_storage
    set_transient_storage
Step-keeps before _ h _ (by_account_exists addr _) ok =
    rw append-nil (ground (arith, record_account_access-IsWellFormed before addr h ok))
Step-keeps before _ h _ (by_get_storage addr key _) ok =
    rw append-nil (ground (arith, record_account_access-IsWellFormed before addr h ok))
Step-keeps before _ h _ (by_get_balance addr _) ok =
    rw append-nil (ground (arith, record_account_access-IsWellFormed before addr h ok))
Step-keeps before _ h _ (by_get_code_size addr _) ok =
    rw append-nil (ground (arith, record_account_access-IsWellFormed before addr h ok))
Step-keeps before _ h _ (by_get_code_hash addr _) ok =
    rw append-nil (ground (arith, record_account_access-IsWellFormed before addr h ok))
Step-keeps before _ h _ (by_copy_code addr code_offset buffer buffer_size _) ok =
    rw append-nil (ground (arith, record_account_access-IsWellFormed before addr h ok))
Step-keeps before _ h h' (by_set_storage addr key value status _ _ called) ok =
    let kept = record_account_access-IsWellFormed before addr h ok in
    rw (append-nil, set_storage_after addr key value status h h' called) kept
Step-keeps before _ h _ (by_selfdestruct addr beneficiary _) ok =
    rw append-nil (record_account_access-IsWellFormed before addr h ok)
Step-keeps before _ h _ (by_call msg input _ size) ok = call-IsWellFormed before msg input h ok
Step-keeps before _ h _ (by_get_block_hash block_number _) ok = rw append-nil (ok)
Step-keeps before _ h _ (by_emit_log addr bytes topics _) ok = rw append-nil (ok)
Step-keeps before _ h _ (by_access_storage addr key _) ok = rw append-nil (ok)
Step-keeps before _ h _ (by_access_account addr _) ok =
    rw append-nil (record_account_access-IsWellFormed before addr h ok)
Step-keeps before _ h _ (by_get_transient_storage addr key _) ok =
    rw append-nil (ground (arith, record_account_access-IsWellFormed before addr h ok))
Step-keeps before _ h _ (by_set_transient_storage addr key value _) ok =
    rw append-nil (record_account_access-IsWellFormed before addr h ok)

-- Whatever calls a VM makes of the host, from a host whose records are those of the calls `before`
-- they are afterwards those of these and the calls `made`: at most 200 account accesses and 100 calls
-- are recorded, there are no more copies of inputs than recorded calls, and the recorded calls are
-- the first 100, in order, each with its message unchanged but for the pointer to its input, which
-- points to a copy of that very input unless the size is 0.
pub Steps-IsWellFormed :
    (before made : Made) (h h' : MockedHost)
    → Steps h made h'
    → IsWellFormed before h
    → IsWellFormed (before ++ made) h'
Steps-IsWellFormed before _ h _ (stop _) ok = rw append-nil ok
Steps-IsWellFormed before _ h h' (next _ h1 _ made others step steps) ok =
    rw (sym (append_assoc before made others))
      (Steps-IsWellFormed (before ++ made) others h1 h' steps (Step-keeps before made h h1 step ok))
