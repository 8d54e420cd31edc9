-- ===== src/MockedHost/Storage/Net.antt =====
-- The statuses of a sequence of writes to one slot, summed up: what net gas metering counts.
use evmc.Base.{
  ℕ, ◌+◌, ◌≡◌, refl, ◌==◌, if◌then◌else◌, Option, none, some, List, [], ◌∷◌, not, ◌&&◌, arith, ◌∙◌,
  ap,
}
use evmc.MockedHost.Types.{
  Word, StorageStatus, added, deleted, modified, deleted_added, modified_deleted, deleted_restored,
  added_deleted, modified_restored, StorageValue, MockedHost,
}
use evmc.MockedHost.Status.Laws.{Means, storage_status-Means, storage_status-by_checks}
use evmc.MockedHost.Storage.{storage_entry, set_storage}
use evmc.MockedHost.Storage.Laws.{set_storage_answer, set_storage-entry, status_at}

-- The calls of `set_storage` for one slot, with the statuses in their order.
unfoldable pub set_each :
    Word → Word → List Word → MockedHost → Option (List StorageStatus × MockedHost)
set_each addr key [] h = some ([], h)
set_each addr key (value ∷ values) h = elim (set_storage addr key value h) [
  | none ↦ none
  | some r ↦ elim (set_each addr key values r.1) [ none ↦ none | some rs ↦ some (r.0 ∷ rs.0, rs.1) ]
]

-- The number of statuses of a kind.
abbrev pub total : (StorageStatus → ℕ) → List StorageStatus → ℕ
total f [] = 0
total f (s ∷ ss) = f s + total f ss

-- The statuses that earn the refund for a cleared slot, and those that take it back.
abbrev pub clears : StorageStatus → ℕ
clears deleted = 1
clears modified_deleted = 1
clears _ = 0

abbrev pub unclears : StorageStatus → ℕ
unclears deleted_added = 1
unclears deleted_restored = 1
unclears _ = 0

-- The statuses that charge for a slot which is changed first, and those that restore it.
abbrev pub changes : StorageStatus → ℕ
changes added = 1
changes deleted = 1
changes modified = 1
changes _ = 0

abbrev pub restores : StorageStatus → ℕ
restores added_deleted = 1
restores deleted_restored = 1
restores modified_restored = 1
restores _ = 0

-- Whether a slot is cleared, and whether it is dirty, as numbers.
abbrev pub cleared : StorageValue → ℕ
cleared s = if not (s.original == 0) && s.current == 0 then 1 else 0

abbrev pub dirty : StorageValue → ℕ
dirty s = if s.original == s.current then 0 else 1

one_write :
    (s s' : StorageValue) (status : StorageStatus)
    → Means status s.original s.current s'.current
    → s'.original ≡ s.original
    → (cleared s + clears status ≡ cleared s' + unclears status)
      × (dirty s + changes status ≡ dirty s' + restores status)
unfolding Means
one_write s s' status m e = ground arith

-- The last of the values, or the one before them.
abbrev pub last_value : Word → List Word → Word
last_value w [] = w
last_value w (value ∷ values) = last_value value values

-- What one call does to the sums.
written_slot :
    (addr key value : Word) (h : MockedHost)
    → (status : StorageStatus) × (h' : MockedHost) × (set_storage addr key value h
        ≡ some (status, h'))
      × (let s = storage_entry addr key h in
          let s' = storage_entry addr key h' in
          (s'.original ≡ s.original)
          × (s'.current ≡ value)
          × (cleared s + clears status ≡ cleared s' + unclears status)
          × (dirty s + changes status ≡ dirty s' + restores status))
written_slot addr key value h =
    let s = storage_entry addr key h in
    let status = status_at addr key value h in
    let (h', made) = set_storage_ends addr key value h in
    let s_is = set_storage-entry addr key value addr key h h' status made in
    let s' = storage_entry addr key h' in
    let original : s'.original ≡ s.original = ground (arith, s_is) in
    let current : s'.current ≡ value = ground (arith, s_is) in
    let m : Means status s.original s.current value =
      (storage_status-Means s.original s.current value status).0
        (storage_status-by_checks s.original s.current value) in
    let sums = one_write s s' status (rw current m) original in
    (status, h', made, (original, current, sums.0, sums.1))
  where
    set_storage_ends :
        (addr key value : Word) (h : MockedHost)
        → (h' : MockedHost) × (set_storage addr key value h ≡ some (status_at addr key value h, h'))
    set_storage_ends addr key value h = (_, set_storage_answer addr key value h)

-- Any number of writes to one slot through `set_storage` ends, leaves the last value in the slot and
-- keeps its original value, and the statuses add up to the net change: the refunds for clearing less
-- those taken back are whether the slot is cleared (its original value is not 0 and its current
-- value is), after the writes less before, and the first changes less the restorations are whether
-- it is dirty.
pub set_each-net :
    (addr key : Word) (values : List Word) (h : MockedHost)
    → (statuses : List StorageStatus) × (h' : MockedHost) × (set_each addr key values h
        ≡ some (statuses, h'))
      × (let s = storage_entry addr key h in
          let s' = storage_entry addr key h' in
          (s'.original ≡ s.original)
          × (s'.current ≡ last_value s.current values)
          × (cleared s + total clears statuses ≡ cleared s' + total unclears statuses)
          × (dirty s + total changes statuses ≡ dirty s' + total restores statuses))
unfolding set_each
set_each-net addr key [] h = ([], h, refl, (refl, refl, omega arith, omega arith))
set_each-net addr key (value ∷ values) h =
    let (status, h1, made, (o, c, cl, di)) = written_slot addr key value h in
    let (statuses, h', made', (o', c', cl', di')) = set_each-net addr key values h1 in
    (
      status ∷ statuses,
      h',
      rw (made, set_each) (rw made' refl),
      (
        o' ∙ o,
        c' ∙ ap (λ (w : Word). last_value w values) c,
        omega (arith, cl, cl'),
        omega (arith, di, di'),
      ),
    )
