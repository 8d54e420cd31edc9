-- ===== src/Owners/Count.antt =====
-- Structures that are to be released, counted in lists and objects.
use evmc.Base.{
  ℕ, ◌+◌, ◌≡◌, Bool, ◌&&◌, some, List, [], ◌∷◌, ◌++◌, ◌==◌, if◌then◌else◌, arith, Bool-cases, inl,
  inr,
}
use evmc.MockedHost.Map.{Map, find}
use evmc.Owners.{replace, remove}

module _ {A : Type 0} (owns : A → Bool) (which : A → Bool) where
  -- One for a structure that is to be released, of those that `which` is about.
  abbrev pub one : A → ℕ
  one a = if owns a && which a then 1 else 0

  abbrev pub count : List A → ℕ
  count [] = 0
  count (a ∷ xs) = one a + count xs

  abbrev pub count_objects : Map A → ℕ
  count_objects [] = 0
  count_objects ((i, a) ∷ m) = one a + count_objects m

  pub count-append : (xs ys : List A) → count (xs ++ ys) ≡ count xs + count ys
  count-append [] ys = omega arith
  count-append (a ∷ xs) ys = omega (arith, count-append xs ys)

  pub count-replace :
      (k : ℕ) (old new : A) (m : Map A)
      → find m k ≡ some old
      → count_objects (replace k new m) + one old ≡ count_objects m + one new
  unfolding find replace
  count-replace k old new [] h = ground arith
  count-replace k old new ((i, a) ∷ m) h = elim (Bool-cases (i == k)) [
    | inl same ↦
        let taken : some a ≡ some old = rw same at h in
        let is : a ≡ old = cc taken in rw (same, is) (omega arith)
    | inr other ↦
        let later : find m k ≡ some old = rw other at h in
        rw other (omega (arith, count-replace k old new m later))
  ]

  pub find-replace :
      (k j : ℕ) (a : A) (m : Map A) → find m j ≡ some a → find (replace k a m) j ≡ some a
  unfolding find replace
  find-replace k j a [] h = ground arith
  find-replace k j a ((i, b) ∷ m) h = ground (arith, find-replace k j a m)

  pub count-remove :
      (k : ℕ) (old : A) (m : Map A)
      → find m k ≡ some old
      → count_objects (remove k m) + one old ≡ count_objects m
  unfolding find remove
  count-remove k old [] h = ground arith
  count-remove k old ((i, a) ∷ m) h = elim (Bool-cases (i == k)) [
    | inl same ↦
        let taken : some a ≡ some old = rw same at h in
        let is : a ≡ old = cc taken in rw (same, is) (omega arith)
    | inr other ↦
        let later : find m k ≡ some old = rw other at h in
        rw other (omega (arith, count-remove k old m later))
  ]
