-- ===== src/MockedHost/Map.antt =====
-- `std::unordered_map` with words for keys, as its entries. The order of the entries is never asked
-- for.
use evmc.Base.{ℕ, ◌≡◌, Option, none, some, [], ◌∷◌, List, arith, ◌==◌, if◌then◌else◌}

abbrev pub Map {ℓ} : Type ℓ → Type ℓ
Map A = List (ℕ × A)

module _ {ℓ} {A : Type ℓ} where
  unfoldable pub find : Map A → ℕ → Option A
  find [] k = none
  find ((i, a) ∷ m) k = if i == k then some a else find m k

  -- A write of `f` through the reference `m[k]`, which inserts the default `d` first if `k` is missing.
  unfoldable pub update : A → (A → A) → ℕ → Map A → Map A
  update d f k [] = (k, f d) ∷ []
  update d f k ((i, a) ∷ m) =
      let rest = update d f k m in if i == k then (i, f a) ∷ m else (i, a) ∷ rest

  -- What `m[k]` refers to.
  abbrev pub value_or : A → Option A → A
  value_or d none = d
  value_or d (some a) = a

  -- A write changes the entry of its key alone.
  pub find-update :
      (d : A) (f : A → A) (k j : ℕ) (m : Map A)
      → find (update d f k m) j ≡ (if k == j then some (f (value_or d (find m k))) else find m j)
  unfolding find update
  find-update d f k j [] = ground arith
  find-update d f k j ((i, a) ∷ m) = ground (arith, find-update d f k j m)
