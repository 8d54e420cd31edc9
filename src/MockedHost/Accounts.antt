-- ===== src/MockedHost/Accounts.antt =====
-- The methods of `MockedHost` on accounts, and `MockedAccount::set_balance`.
pub mod Laws
use evmc.Base.{
  ℕ, zero, suc, ◌*◌, ◌/◌, ◌%◌, ◌^◌, ◌+◌, ◌-◌, Bool, true, false, ◌&&◌, ◌||◌, Option, none, some,
  List, [], ◌∷◌, ◌++◌, length, take, drop, ltb, leb, ◌==◌, if◌then◌else◌,
}
use evmc.MockedHost.Map.{find, update, value_or}
use evmc.MockedHost.Types.{Word, AccessStatus, cold, warm, MockedAccount, MockedHost}
use evmc.MockedHost.Storage.{record_account_access}

unfoldable pub account_exists : Word → MockedHost → Bool × MockedHost
unfolding record_account_access find
account_exists addr h =
    let h = record_account_access addr h in
    elim (find h.accounts addr) [ none ↦ (false, h) | some account ↦ (true, h) ]

unfoldable pub get_balance : Word → MockedHost → Word × MockedHost
unfolding record_account_access find
get_balance addr h =
    let h = record_account_access addr h in
    elim (find h.accounts addr) [ none ↦ (0, h) | some account ↦ (account.balance, h) ]

unfoldable pub get_code_size : Word → MockedHost → ℕ × MockedHost
unfolding record_account_access find
get_code_size addr h =
    let h = record_account_access addr h in
    elim (find h.accounts addr) [ none ↦ (0, h) | some account ↦ (length account.code, h) ]

unfoldable pub get_code_hash : Word → MockedHost → Word × MockedHost
unfolding record_account_access find
get_code_hash addr h =
    let h = record_account_access addr h in
    elim (find h.accounts addr) [ none ↦ (0, h) | some account ↦ (account.codehash, h) ]

abbrev pub min : ℕ → ℕ → ℕ
min a b = if ltb b a then b else a

-- The statements of `copy_code` on the code: the count, and the memory from `buffer_data` on.
unfoldable pub copy_from : List ℕ → ℕ → List ℕ → ℕ → ℕ × List ℕ
copy_from code code_offset buffer buffer_size =
    if leb (length code) code_offset
    then (0, buffer)
    else (let n = min buffer_size (length code - code_offset) in
        if ltb 0 n then (n, take n (drop code_offset code) ++ drop n buffer) else (n, buffer))

-- `buffer` is the memory from `buffer_data` on.
unfoldable pub copy_code : Word → ℕ → List ℕ → ℕ → MockedHost → (ℕ × List ℕ) × MockedHost
unfolding record_account_access find copy_from
copy_code addr code_offset buffer buffer_size h =
    let h = record_account_access addr h in
    elim (find h.accounts addr) [
      | none ↦ ((0, buffer), h)
      | some account ↦ (copy_from account.code code_offset buffer buffer_size, h)
    ]

unfoldable pub selfdestruct : Word → Word → MockedHost → Bool × MockedHost
unfolding record_account_access find update
selfdestruct addr beneficiary h =
    let h = record_account_access addr h in
    let add = λ (beneficiaries : List Word). beneficiaries ++ (beneficiary ∷ []) in
    let beneficiaries = add (value_or [] (find h.recorded_selfdestructs addr)) in
    (
      length beneficiaries == 1,
      record h { recorded_selfdestructs = update [] add addr h.recorded_selfdestructs },
    )

-- `std::find` in a vector of addresses
unfoldable pub contains : Word → List Word → Bool
contains addr [] = false
contains addr (a ∷ rest) = a == addr || contains addr rest

unfoldable pub access_account : Word → MockedHost → AccessStatus × MockedHost
unfolding record_account_access contains
access_account addr h =
    let already_accessed = contains addr h.recorded_account_accesses in
    let h = record_account_access addr h in
    ((if leb 1 addr && leb addr 9 then warm else if already_accessed then warm else cold), h)

-- The bytes that the loop writes for the indices below `i`, as the number that they are.
unfoldable pub low_bytes : ℕ → ℕ → ℕ
low_bytes zero x = 0
low_bytes (suc i) x = low_bytes i x + x / 2 ^ (8 * i) % 2 ^ 8 * 2 ^ (8 * i)

-- `x` is a 64-bit number, of 8 bytes.
unfoldable pub set_balance : ℕ → MockedAccount → MockedAccount
unfolding low_bytes
set_balance x account = record account { balance = low_bytes 8 x }
