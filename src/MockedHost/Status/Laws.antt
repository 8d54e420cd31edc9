-- ===== src/MockedHost/Status/Laws.antt =====
-- The storage status, as include/evmc/evmc.h describes it.
use evmc.Base.{◌≡◌, ◌≢◌, ◌↔◌, ◌⊎◌, Bool, true, false, not, ◌==◌, some, arith}
use evmc.MockedHost.Types.{
  Word, StorageStatus, assigned, added, deleted, modified, deleted_added, modified_deleted,
  deleted_restored, added_deleted, modified_restored,
}
use evmc.MockedHost.Status.{storage_status}

-- The cases "o -> c -> v" of the comments of `enum evmc_storage_status`: the original, the current
-- and the new value.
unfoldable pub Means : StorageStatus → Word → Word → Word → Type 0
Means assigned o c v = (c ≡ v) ⊎ ((o ≢ c) × (c ≢ v) × (o ≢ v) × (c ≢ 0) × (v ≢ 0))
Means added o c v = (o ≡ 0) × (c ≡ 0) × (v ≢ 0)
Means deleted o c v = (o ≢ 0) × (c ≡ o) × (v ≡ 0)
Means modified o c v = (o ≢ 0) × (c ≡ o) × (v ≢ 0) × (v ≢ o)
Means deleted_added o c v = (o ≢ 0) × (c ≡ 0) × (v ≢ 0) × (v ≢ o)
Means modified_deleted o c v = (o ≢ 0) × (c ≢ 0) × (c ≢ o) × (v ≡ 0)
Means deleted_restored o c v = (o ≢ 0) × (c ≡ 0) × (v ≡ o)
Means added_deleted o c v = (o ≡ 0) × (c ≢ 0) × (v ≡ 0)
Means modified_restored o c v = (o ≢ 0) × (c ≢ 0) × (c ≢ o) × (v ≡ o)

-- The status by four checks: dirty, restored, and whether the current and the new value are not zero.
unfoldable pub by_checks : Bool → Bool → Bool → Bool → StorageStatus
by_checks false true _ _ = assigned
by_checks false false false _ = added
by_checks false false true false = deleted
by_checks false false true true = modified
by_checks true true false _ = deleted_restored
by_checks true true true false = added_deleted
by_checks true true true true = modified_restored
by_checks true false false false = assigned
by_checks true false false true = deleted_added
by_checks true false true false = modified_deleted
by_checks true false true true = assigned

-- The status is found for all values, no assertion fails, and the four checks of the code's comment
-- are enough to tell it: whether the original differs from the current value, whether it is the new
-- value, and whether the current and the new value are not zero.
pub storage_status-by_checks :
    (original current value : Word)
    → storage_status original current value
      ≡ some (
          by_checks
            (not (original == current))
            (original == value)
            (not (current == 0))
            (not (value == 0)))
unfolding storage_status by_checks
storage_status-by_checks original current value = ground arith

-- The code finds exactly the status whose description in evmc.h the three values meet.
pub storage_status-Means :
    (original current value : Word) (status : StorageStatus)
    → (storage_status original current value ≡ some status) ↔ Means status original current value
unfolding storage_status Means
storage_status-Means original current value status = ground arith
