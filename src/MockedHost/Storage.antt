-- ===== src/MockedHost/Storage.antt =====
-- The methods of `MockedHost` on storage.
pub mod Laws
pub mod Net
use evmc.Base.{ℕ, Option, none, some, [], ◌∷◌, ◌++◌, length, ltb, if◌then◌else◌}
use evmc.MockedHost.Map.{Map, find, update, value_or}
use evmc.MockedHost.Types.{
  Word, StorageStatus, AccessStatus, warm, StorageValue, new_storage_value, MockedAccount,
  new_account, MockedHost, max_recorded_account_accesses,
}
use evmc.MockedHost.Status.{storage_status}

unfoldable pub record_account_access : Word → MockedHost → MockedHost
record_account_access addr h =
    if ltb (length h.recorded_account_accesses) max_recorded_account_accesses
    then record h { recorded_account_accesses = h.recorded_account_accesses ++ (addr ∷ []) }
    else h

-- `accounts[addr].storage[key]`: what it refers to, and a write through it.
unfoldable pub storage_entry : Word → Word → MockedHost → StorageValue
unfolding find
storage_entry addr key h =
    value_or new_storage_value (find (value_or new_account (find h.accounts addr)).storage key)

unfoldable pub write_storage_entry :
    (StorageValue → StorageValue) → Word → Word → MockedHost → MockedHost
unfolding update
write_storage_entry f addr key h =
    let write =
      λ (a : MockedAccount). record a { storage = update new_storage_value f key a.storage } in
    record h { accounts = update new_account write addr h.accounts }

unfoldable pub get_storage : Word → Word → MockedHost → Word × MockedHost
unfolding record_account_access find
get_storage addr key h =
    let h = record_account_access addr h in
    elim (find h.accounts addr) [
      | none ↦ (0, h)
      | some account ↦ elim (find account.storage key) [ some s ↦ (s.current, h) | none ↦ (0, h) ]
    ]

-- `none` where an assertion fails.
unfoldable pub set_storage : Word → Word → Word → MockedHost → Option (StorageStatus × MockedHost)
unfolding record_account_access storage_entry write_storage_entry storage_status
set_storage addr key value h =
    let h = record_account_access addr h in
    let s = storage_entry addr key h in
    elim (storage_status s.original s.current value) [
      | none ↦ none
      | some status ↦ some (
        status,
        write_storage_entry (λ (s : StorageValue). record s { current = value }) addr key h,
      )
    ]

unfoldable pub access_storage : Word → Word → MockedHost → AccessStatus × MockedHost
unfolding storage_entry write_storage_entry
access_storage addr key h = (
  (storage_entry addr key h).access_status,
  write_storage_entry (λ (s : StorageValue). record s { access_status = warm }) addr key h,
)

unfoldable pub get_transient_storage : Word → Word → MockedHost → Word × MockedHost
unfolding record_account_access find
get_transient_storage addr key h =
    let h = record_account_access addr h in
    elim (find h.accounts addr) [
      | none ↦ (0, h)
      | some account ↦ elim (find account.transient_storage key) [
        | some value ↦ (value, h)
        | none ↦ (0, h)
      ]
    ]

unfoldable pub set_transient_storage : Word → Word → Word → MockedHost → MockedHost
unfolding record_account_access update
set_transient_storage addr key value h =
    let h = record_account_access addr h in
    let write = λ (a : MockedAccount). record a {
      transient_storage = update 0 (λ old. value) key a.transient_storage;
    } in
    record h { accounts = update new_account write addr h.accounts }
