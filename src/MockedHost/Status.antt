-- ===== src/MockedHost/Status.antt =====
-- The storage status that `MockedHost::set_storage` computes.
pub mod Laws
use Prim.Native.Nat.{bit_or}
use evmc.Base.{ℕ, Bool, Option, none, some, ◌==◌, if◌then◌else◌}
use evmc.MockedHost.Types.{
  Word, StorageStatus, assigned, added, deleted, modified, deleted_added, modified_deleted,
  deleted_restored, added_deleted, modified_restored,
}

abbrev pub is_zero : Word → Bool
is_zero w = w == 0

-- The flags of `triggered_clauses`.
abbrev pub remove_clears_schedule : ℕ
remove_clears_schedule = 1

abbrev pub add_clears_schedule : ℕ
add_clears_schedule = 2

abbrev pub restored_by_set : ℕ
restored_by_set = 4

abbrev pub restored_by_reset : ℕ
restored_by_reset = 8

-- Clause 3.2.1.1, with its assertion: `none` where that fails.
unfoldable pub remove_clears : Word → Word → ℕ → Option ℕ
remove_clears current value clauses =
    if is_zero current
    then (if is_zero value then none else some (bit_or clauses remove_clears_schedule))
    else some clauses

-- Clause 3.2.1.2, with its assertion.
unfoldable pub add_clears : Word → Word → ℕ → Option ℕ
add_clears current value clauses =
    if is_zero value
    then (if is_zero current then none else some (bit_or clauses add_clears_schedule))
    else some clauses

-- Clause 3.2.1
unfoldable pub change_clears : Word → Word → Word → ℕ → Option ℕ
unfolding remove_clears add_clears
change_clears original current value clauses =
    if is_zero original then some clauses else elim (remove_clears current value clauses) [
      | none ↦ none
      | some t ↦ add_clears current value t
    ]

-- Clause 3.2.2
unfoldable pub restore : Word → Word → ℕ → ℕ
restore original value clauses =
    if original == value
    then (if is_zero original
        then bit_or clauses restored_by_set
        else bit_or clauses restored_by_reset)
    else clauses

-- `switch (triggered_clauses)`; `none` is the failed assertion of the default case.
unfoldable pub status_of_clauses : ℕ → Option StorageStatus
status_of_clauses clauses =
    if clauses == remove_clears_schedule
    then some deleted_added
    else if clauses == add_clears_schedule
    then some modified_deleted
    else if clauses == bit_or remove_clears_schedule restored_by_reset
    then some deleted_restored
    else if clauses == restored_by_set
    then some added_deleted
    else if clauses == restored_by_reset
    then some modified_restored
    else if clauses == 0
    then some assigned
    else none

-- The lambda that `status` is initialised with, on the three values.
unfoldable pub storage_status : Word → Word → Word → Option StorageStatus
unfolding change_clears restore status_of_clauses
storage_status original current value =
    if current == value
    then some assigned
    else if original == current
    then (if is_zero original
        then some added
        else if is_zero value
        then some deleted
        else some modified)
    else elim (change_clears original current value 0) [
      | none ↦ none
      | some clauses ↦ status_of_clauses (restore original value clauses)
    ]
