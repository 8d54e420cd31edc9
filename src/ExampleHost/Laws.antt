-- ===== src/ExampleHost/Laws.antt =====
-- What the methods of the example host on storage read and write.
use evmc.Base.{◌≡◌, ◌≢◌, ◌∙◌, ◌&&◌, ◌==◌, if◌then◌else◌, arith, ◌↔◌}
use evmc.MockedHost.Map.{find, update, value_or, find-update}
use evmc.MockedHost.Types.{Word, assigned, modified}
use evmc.ExampleHost.{Account, default_account, ExampleHost, get_storage, set_storage}

abbrev entry : Word → Word → ExampleHost → Word
entry addr key host =
    value_or 0 (find (value_or default_account (find host.accounts addr)).storage key)

get_storage-entry :
    (addr key : Word) (host : ExampleHost) → get_storage addr key host ≡ entry addr key host
unfolding get_storage find
get_storage-entry addr key host = ground arith

entry-set_storage :
    (addr key value a k : Word) (host : ExampleHost)
    → entry a k (set_storage addr key value host).1
      ≡ (if addr == a && key == k then value else entry a k host)
unfolding set_storage
entry-set_storage addr key value a k host =
    let write = λ (a : Account). record a { storage = update 0 (λ old. value) key a.storage } in
    let account = value_or default_account (find host.accounts a) in
    rw (find-update default_account write addr a host.accounts)
      (ground (arith, find-update 0 (λ old. value) key k account.storage))

-- The example host: `set_storage` answers EVMC_STORAGE_ASSIGNED exactly where the slot held the value
-- before and EVMC_STORAGE_MODIFIED exactly where it held another, and afterwards `get_storage` reads the new value in that slot and the old ones in all
-- others.
pub set_storage_lem :
    (addr key value a k : Word) (host : ExampleHost)
    → let made = set_storage addr key value host in
      ((made.0 ≡ assigned) ↔ (get_storage addr key host ≡ value))
      × ((made.0 ≡ modified) ↔ (get_storage addr key host ≢ value))
      × (get_storage a k made.1 ≡ (if addr == a && key == k then value else get_storage a k host))
set_storage_lem addr key value a k host =
    let made = set_storage addr key value host in
    (
      unfold set_storage in ground (arith, get_storage-entry addr key host),
      unfold set_storage in ground (arith, get_storage-entry addr key host),
      get_storage-entry a k made.1
          ∙ entry-set_storage addr key value a k host
          ∙ ground (arith, get_storage-entry a k host),
    )
