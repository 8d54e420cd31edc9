-- ===== src/MockedHost/Accounts/Laws.antt =====
-- What the methods on accounts answer.
use evmc.Base.{
  ℕ, ◌^◌, zero, suc, ◌-◌, ◌≡◌, ◌≤◌, ◌<◌, ◌↔◌, ◌⊎◌, inl, inr, refl, true, ◌||◌, ◌==◌, if◌then◌else◌,
  List, [], ◌∷◌, ◌++◌, none, some, length, length-append, length-drop, take, drop, arith, ap,
}
use evmc.MockedHost.Map.{find, value_or, find-update}
use evmc.MockedHost.Types.{Word, warm, MockedAccount, MockedHost, max_recorded_account_accesses}
use evmc.MockedHost.Storage.{record_account_access}
use evmc.MockedHost.Accounts.{
  min, copy_from, copy_code, selfdestruct, contains, access_account, set_balance,
}

-- The list has the address.
abbrev pub Has : Word → List Word → Type 0
Has addr xs = contains addr xs ≡ true

contains-append :
    (addr : Word) (xs ys : List Word)
    → contains addr (xs ++ ys) ≡ (contains addr xs || contains addr ys)
unfolding contains
contains-append addr [] ys = refl
contains-append addr (x ∷ xs) ys = ground (arith, contains-append addr xs ys)

-- A recorded access stays recorded, and one is recorded while fewer than 200 are.
pub record_account_access-Has :
    (addr a : Word) (h : MockedHost)
    → Has a (record_account_access addr h).recorded_account_accesses ↔ (
        Has a h.recorded_account_accesses
        ⊎ ((addr ≡ a) × (length h.recorded_account_accesses < max_recorded_account_accesses)))
unfolding record_account_access contains
record_account_access-Has addr a h =
    ground (arith, contains-append a h.recorded_account_accesses (addr ∷ []))

-- An account is warm when it is one of the precompiled contracts 1 to 9 or its access is recorded.
pub access_account-warm :
    (addr : Word) (h : MockedHost)
    → ((access_account addr h).0 ≡ warm)
      ↔ (((1 ≤ addr) × (addr ≤ 9)) ⊎ Has addr h.recorded_account_accesses)
unfolding access_account
access_account-warm addr h = ground arith

-- The accesses of several accounts, one after the other.
unfoldable pub access_each : List Word → MockedHost → MockedHost
access_each [] h = h
access_each (addr ∷ others) h = access_each others (access_account addr h).1

access_each-Has :
    (a : Word) (others : List Word) (h : MockedHost)
    → Has a h.recorded_account_accesses
    → Has a (access_each others h).recorded_account_accesses
unfolding access_each access_account
access_each-Has a [] h has = has
access_each-Has a (addr ∷ others) h has =
    access_each-Has a others (record_account_access addr h)
      ((record_account_access-Has addr a h).1 (inl has))

-- An account that is accessed while fewer than 200 accesses are recorded is warm at a later access,
-- whatever other accounts are accessed in between.
pub access_account-again :
    (addr : Word) (others : List Word) (h : MockedHost)
    → length h.recorded_account_accesses < max_recorded_account_accesses
    → (access_account addr (access_each others (access_account addr h).1)).0 ≡ warm
unfolding access_account
access_account-again addr others h room =
    let h1 = record_account_access addr h in
    (access_account-warm addr (access_each others h1)).1 (
      inr (
        access_each-Has addr others h1
          ((record_account_access-Has addr addr h).1 (inr (refl, room)))))

copied :
    (n : ℕ) (xs buffer : List ℕ)
    → n ≤ length xs
    → n ≤ length buffer
    → let memory = take n xs ++ drop n buffer in
      (length memory ≡ length buffer)
      × (take n memory ≡ take n xs)
      × (drop n memory ≡ drop n buffer)
copied zero xs buffer hx hb = (refl, refl, refl)
copied (suc n) [] buffer hx hb = absurd (omega arith)
copied (suc n) (x ∷ xs) [] hx hb = absurd (omega arith)
copied (suc n) (x ∷ xs) (b ∷ buffer) hx hb =
    let (l, t, d) = copied n xs buffer (omega arith) (omega arith) in
    (ap suc l, ap (λ (ys : List ℕ). x ∷ ys) t, d)

copy_from_lem :
    (code : List ℕ) (code_offset : ℕ) (buffer : List ℕ) (buffer_size : ℕ)
    → buffer_size ≤ length buffer
    → let (n, memory) = copy_from code code_offset buffer buffer_size in
      (n ≡ min buffer_size (length code - code_offset))
      × (length memory ≡ length buffer)
      × (take n memory ≡ take n (drop code_offset code))
      × (drop n memory ≡ drop n buffer)
unfolding copy_from
copy_from_lem code code_offset buffer buffer_size fits =
    let n = min buffer_size (length code - code_offset) in
    let rest = drop code_offset code in
    let size = length-drop code_offset code in
    ground (arith, copied n rest buffer (ground (arith, size)) (ground arith))

-- The code of an account, which is empty where there is no account.
abbrev pub code_of : Word → MockedHost → List ℕ
code_of addr h = elim (find h.accounts addr) [ none ↦ [] | some account ↦ account.code ]

nothing_copied :
    (code_offset : ℕ) (buffer : List ℕ) (buffer_size : ℕ)
    → copy_from [] code_offset buffer buffer_size ≡ (0, buffer)
unfolding copy_from
nothing_copied code_offset buffer buffer_size = ground arith

copy_code-copy_from :
    (addr : Word) (code_offset : ℕ) (buffer : List ℕ) (buffer_size : ℕ) (h : MockedHost)
    → copy_code addr code_offset buffer buffer_size h
      ≡ (copy_from (code_of addr h) code_offset buffer buffer_size, record_account_access addr h)
unfolding copy_code record_account_access
copy_code-copy_from addr code_offset buffer buffer_size h =
    ground (arith, nothing_copied code_offset buffer buffer_size)

-- For a buffer with room for `buffer_size` bytes, the count is the number of bytes of the account's
-- code behind the offset, and at most `buffer_size`; so many bytes from the offset on are copied,
-- the memory behind them is unchanged, and the host records the access of the account and nothing
-- else. An address without an account has no code.
pub copy_code_lem :
    (addr : Word) (code_offset : ℕ) (buffer : List ℕ) (buffer_size : ℕ) (h : MockedHost)
    → buffer_size ≤ length buffer
    → let ((n, memory), h') = copy_code addr code_offset buffer buffer_size h in
      let code = code_of addr h in
      (n ≡ min buffer_size (length code - code_offset))
      × (length memory ≡ length buffer)
      × (take n memory ≡ take n (drop code_offset code))
      × (drop n memory ≡ drop n buffer)
      × (h' ≡ record_account_access addr h)
copy_code_lem addr code_offset buffer buffer_size h fits =
    rw (copy_code-copy_from addr code_offset buffer buffer_size h)
      (ground (arith, copy_from_lem (code_of addr h) code_offset buffer buffer_size fits))

-- The beneficiaries that are recorded for an account.
abbrev pub beneficiaries : Word → MockedHost → List Word
beneficiaries addr h = value_or [] (find h.recorded_selfdestructs addr)

record_account_access-selfdestructs :
    (addr : Word) (h : MockedHost)
    → (record_account_access addr h).recorded_selfdestructs ≡ h.recorded_selfdestructs
unfolding record_account_access
record_account_access-selfdestructs addr h = ground arith

-- Only one beneficiary is there exactly if there was none before.
one_iff : (bs : List Word) (b : Word) → ((length (bs ++ (b ∷ [])) == 1) ≡ true) ↔ (bs ≡ [])
one_iff [] b = ((λ e. refl), (λ e. refl))
one_iff (c ∷ bs) b = ground (arith, length-append bs (b ∷ []))

-- A selfdestruct is recorded behind the earlier ones of the account, the records of other accounts
-- are kept, and the answer is whether it is the first of the account.
pub selfdestruct_lem :
    (addr beneficiary a : Word) (h : MockedHost)
    → let (first, h') = selfdestruct addr beneficiary h in
      ((first ≡ true) ↔ (beneficiaries addr h ≡ []))
      × (beneficiaries a h'
          ≡ (if addr == a then beneficiaries a h ++ (beneficiary ∷ []) else beneficiaries a h))
unfolding selfdestruct
selfdestruct_lem addr beneficiary a h =
    let add = λ (bs : List Word). bs ++ (beneficiary ∷ []) in
    rw (record_account_access-selfdestructs addr h) (
      one_iff (beneficiaries addr h) beneficiary,
      ground (arith, find-update [] add addr a h.recorded_selfdestructs),
    )

-- The balance that is set from a number of 64 bits is that number.
pub set_balance_lem :
    (x : ℕ) (account : MockedAccount) → x < 2 ^ 64 → (set_balance x account).balance ≡ x
unfolding set_balance
set_balance_lem x account small = omega arith
