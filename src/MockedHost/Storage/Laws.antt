-- ===== src/MockedHost/Storage/Laws.antt =====
-- What the methods on storage read and write.
use evmc.Base.{◌≡◌, refl, ap, ◌∙◌, Bool, not, ◌&&◌, ◌==◌, if◌then◌else◌, Option, none, some, arith}
use evmc.MockedHost.Map.{find, update, value_or, find-update}
use evmc.MockedHost.Types.{
  Word, StorageStatus, warm, StorageValue, new_storage_value, MockedAccount, new_account,
  MockedHost,
}
use evmc.MockedHost.Status.{storage_status}
use evmc.MockedHost.Status.Laws.{Means, by_checks, storage_status-by_checks, storage_status-Means}
use evmc.MockedHost.Storage.{
  record_account_access, storage_entry, write_storage_entry, get_storage, set_storage,
  access_storage, get_transient_storage, set_transient_storage,
}

-- The same slot: the address and the key.
abbrev pub same_slot : Word → Word → Word → Word → Bool
same_slot addr key a k = addr == a && key == k

pub storage_entry-write :
    (f : StorageValue → StorageValue) (addr key a k : Word) (h : MockedHost)
    → storage_entry a k (write_storage_entry f addr key h)
      ≡ (if same_slot addr key a k then f (storage_entry a k h) else storage_entry a k h)
unfolding storage_entry write_storage_entry
storage_entry-write f addr key a k h =
    let write =
      λ (a : MockedAccount). record a { storage = update new_storage_value f key a.storage } in
    rw (find-update new_account write addr a h.accounts) (
      ground (
        arith,
        find-update new_storage_value f key k (value_or new_account (find h.accounts a)).storage,
      ))

pub storage_entry-record :
    (addr a k : Word) (h : MockedHost)
    → storage_entry a k (record_account_access addr h) ≡ storage_entry a k h
unfolding storage_entry record_account_access
storage_entry-record addr a k h = ground arith

-- What `get_storage` answers is the current value of the slot.
pub get_storage-entry :
    (a k : Word) (h : MockedHost) → (get_storage a k h).0 ≡ (storage_entry a k h).current
unfolding get_storage storage_entry record_account_access
get_storage-entry a k h = ground arith

-- The end of `set_storage`, for the computed status.
abbrev answer :
    Option StorageStatus → Word → Word → Word → MockedHost → Option (StorageStatus × MockedHost)
answer o addr key value h = elim o [
  | none ↦ none
  | some status ↦ some (
    status,
    write_storage_entry (λ (s : StorageValue). record s { current = value }) addr key
        (record_account_access addr h),
  )
]

-- The status that the call answers, which is always there.
abbrev pub status_at : Word → Word → Word → MockedHost → StorageStatus
status_at addr key value h =
    let s = storage_entry addr key h in
    by_checks (not (s.original == s.current)) (s.original == value) (not (s.current == 0))
      (not (value == 0))

pub set_storage_answer :
    (addr key value : Word) (h : MockedHost)
    → set_storage addr key value h
      ≡ some (
        status_at addr key value h,
        write_storage_entry
            (λ (s : StorageValue). record s { current = value })
            addr
            key
            (record_account_access addr h),
      )
unfolding set_storage
set_storage_answer addr key value h =
    let s = storage_entry addr key h in
    let after = λ (o : Option StorageStatus). answer o addr key value h in
    ap (λ (s : StorageValue). after (storage_status s.original s.current value))
      (storage_entry-record addr addr key h)
    ∙ ap after (storage_status-by_checks s.original s.current value)

-- The slot after the call: the new value in the written slot, and nothing else.
pub set_storage-entry :
    (addr key value a k : Word) (h h' : MockedHost) (status : StorageStatus)
    → set_storage addr key value h ≡ some (status, h')
    → storage_entry a k h' ≡ (
        if same_slot addr key a k
        then record (storage_entry a k h) { current = value }
        else storage_entry a k h)
set_storage-entry addr key value a k h h' status e =
    let made = set_storage_answer addr key value h in
    let f = λ (s : StorageValue). record s { current = value } in
    let same : h' ≡ write_storage_entry f addr key (record_account_access addr h) = cc (e, made) in
    ap (storage_entry a k) same
    ∙ storage_entry-write f addr key a k (record_account_access addr h)
    ∙ rw (storage_entry-record addr a k h) refl

-- `set_storage` always ends, its status is the one that evmc.h describes for the original, the
-- current and the new value of the slot, and afterwards `get_storage` reads the new value in that
-- slot and the old ones in all others.
pub set_storage-get_storage :
    (addr key value a k : Word) (h : MockedHost)
    → let s = storage_entry addr key h in
      (status : StorageStatus) × (h' : MockedHost) × (set_storage addr key value h
        ≡ some (status, h'))
      × Means status s.original s.current value
      × ((get_storage a k h').0 ≡ (if same_slot addr key a k then value else (get_storage a k h).0))
set_storage-get_storage addr key value a k h =
    let s = storage_entry addr key h in
    let status = status_at addr key value h in
    let h' =
      write_storage_entry (λ (s : StorageValue). record s { current = value }) addr key
        (record_account_access addr h) in
    let made = set_storage_answer addr key value h in
    (
      status,
      h',
      made,
      (storage_status-Means s.original s.current value status).0
          (storage_status-by_checks s.original s.current value),
      get_storage-entry a k h'
          ∙ ap (λ (s : StorageValue). s.current)
              (set_storage-entry addr key value a k h h' status made)
          ∙ ground (arith, get_storage-entry a k h),
    )

-- After `access_storage` the slot is warm and no other slot has another status, and no value is
-- changed.
pub access_storage-warm :
    (addr key a k : Word) (h : MockedHost)
    → let h' = (access_storage addr key h).1 in
      ((access_storage a k h').0
        ≡ (if same_slot addr key a k then warm else (access_storage a k h).0))
      × ((get_storage a k h').0 ≡ (get_storage a k h).0)
unfolding access_storage
access_storage-warm addr key a k h =
    let f = λ (s : StorageValue). record s { access_status = warm } in
    let written = storage_entry-write f addr key a k h in
    (
      ap (λ (s : StorageValue). s.access_status) written ∙ ground arith,
      get_storage-entry a k (write_storage_entry f addr key h)
          ∙ ap (λ (s : StorageValue). s.current) written
          ∙ ground (arith, get_storage-entry a k h),
    )

-- What `get_transient_storage` reads.
unfoldable transient_entry : Word → Word → MockedHost → Word
unfolding find
transient_entry addr key h =
    value_or 0 (find (value_or new_account (find h.accounts addr)).transient_storage key)

get_transient_storage-entry :
    (a k : Word) (h : MockedHost) → (get_transient_storage a k h).0 ≡ transient_entry a k h
unfolding get_transient_storage transient_entry record_account_access
get_transient_storage-entry a k h = ground arith

transient_entry-set :
    (addr key value a k : Word) (h : MockedHost)
    → (transient_entry a k (set_transient_storage addr key value h)
        ≡ (if same_slot addr key a k then value else transient_entry a k h))
      × (storage_entry a k (set_transient_storage addr key value h) ≡ storage_entry a k h)
unfolding transient_entry set_transient_storage storage_entry record_account_access
transient_entry-set addr key value a k h =
    let write = λ (a : MockedAccount). record a {
      transient_storage = update 0 (λ old. value) key a.transient_storage;
    } in
    ground (
      arith,
      find-update new_account write addr a h.accounts,
      find-update 0 (λ old. value) key k
          (value_or new_account (find h.accounts a)).transient_storage,
    )

-- `get_transient_storage` reads what `set_transient_storage` wrote to a slot last, and the storage
-- is not changed by it.
pub set_transient_storage-get :
    (addr key value a k : Word) (h : MockedHost)
    → let h' = set_transient_storage addr key value h in
      ((get_transient_storage a k h').0
        ≡ (if same_slot addr key a k then value else (get_transient_storage a k h).0))
      × ((get_storage a k h').0 ≡ (get_storage a k h).0)
set_transient_storage-get addr key value a k h =
    let (written, kept) = transient_entry-set addr key value a k h in
    ground (
      arith,
      written,
      kept,
      get_transient_storage-entry a k h,
      get_transient_storage-entry a k (set_transient_storage addr key value h),
      get_storage-entry a k h,
      get_storage-entry a k (set_transient_storage addr key value h),
    )

-- The host after `set_storage`.
pub set_storage_after :
    (addr key value : Word) (status : StorageStatus) (h h' : MockedHost)
    → set_storage addr key value h ≡ some (status, h')
    → h'
      ≡ write_storage_entry
          (λ (s : StorageValue). record s { current = value })
          addr
          key
          (record_account_access addr h)
set_storage_after addr key value status h h' e =
    let made = set_storage_answer addr key value h in cc (e, made)
