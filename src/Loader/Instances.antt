-- ===== src/Loader/Instances.antt =====
-- The VM instances that outside code made and destroyed, counted along the calls.
use evmc.Base.{ℕ, ◌+◌, Option, none, some, [], ◌∷◌, ◌==◌, if◌then◌else◌}
use evmc.Helpers.Vm.{Vm, History, created, destroyed}

unfoldable pub creations : ℕ → History → ℕ
creations k [] = 0
creations k (created f (some i) ∷ es) = (if i == k then 1 else 0) + creations k es
creations k (_ ∷ es) = creations k es

unfoldable pub destructions : ℕ → History → ℕ
destructions k [] = 0
destructions k (destroyed i ∷ es) = (if i == k then 1 else 0) + destructions k es
destructions k (_ ∷ es) = destructions k es

-- 1 if the returned instance is the one at the pointer `k`.
unfoldable pub held : ℕ → Option Vm → ℕ
held k none = 0
held k (some vm) = if vm.vm_pointer == k then 1 else 0
