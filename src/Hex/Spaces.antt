-- ===== src/Hex/Spaces.antt =====
-- include/evmc/filter_iterator.hpp: `skip_space_iterator`.
use evmc.Base.{
  ℕ, zero, suc, ◌+◌, ◌-◌, ◌%◌, ◌^◌, ◌≤◌, ◌<◌, ◌≡◌, refl, ap, Bool, true, false, not, ◌||◌, List, [],
  ◌∷◌, length, ltb, ◌==◌, if◌then◌else◌, arith, Bool-cases, inl, inr,
}
use evmc.CString.{Text}

-- The difference is taken in 32 bits, without a sign.
unfoldable pub isspace : ℕ → Bool
isspace ch = ch == b' ' || ltb ((ch + 2 ^ 32 - 9) % 2 ^ 32) 5

unfoldable pub is_not_space : ℕ → Bool
unfolding isspace
is_not_space ch = not (isspace ch)

-- `filter_iterator` with this predicate: what lies between `base` and `base_end`, and the cached value.
pub record SkipSpaceIterator : Type 0 where
  pub base : Text
  pub value : ℕ

unfoldable pub forward_to_next_value : Text → ℕ → SkipSpaceIterator
unfolding is_not_space
forward_to_next_value [] value = record { base = []; value = value }
forward_to_next_value (c ∷ base) value = elim (is_not_space c) [
  | true ↦ record { base = c ∷ base; value = c }
  | false ↦ forward_to_next_value base c
]

-- `++it`
unfoldable pub increment : SkipSpaceIterator → SkipSpaceIterator
unfolding forward_to_next_value
increment it = elim (it.base) [ [] ↦ it | c ∷ base ↦ forward_to_next_value base it.value ]

-- The characters that a loop from the iterator to the end reads, with a round for each at most.
unfoldable pub characters : ℕ → SkipSpaceIterator → Text
unfolding increment
characters zero it = []
characters (suc fuel) it = elim (it.base) [
  | [] ↦ []
  | c ∷ base ↦ it.value ∷ characters fuel (increment it)
]

-- The characters of a string that the iterator over it gives.
unfoldable pub without_spaces : Text → Text
unfolding characters forward_to_next_value
without_spaces s = characters (length s) (forward_to_next_value s 0)

abbrev pub AreBytes : List ℕ → Type 0
AreBytes [] = Unit
AreBytes (b ∷ bs) = (b < 2 ^ 8) × AreBytes bs

-- The space and the control characters from the tab to the carriage return.
unfoldable pub is_space_character : ℕ → Bool
is_space_character c = c == 32 || c == 9 || c == 10 || c == 11 || c == 12 || c == 13

isspace-is_space_character : (c : ℕ) → c < 2 ^ 8 → isspace c ≡ is_space_character c
unfolding isspace is_space_character
isspace-is_space_character c byte = ground arith

-- The characters of a string that are none of these.
unfoldable pub non_spaces : Text → Text
unfolding is_space_character
non_spaces [] = []
non_spaces (c ∷ s) = if is_space_character c then non_spaces s else c ∷ non_spaces s

characters-non_spaces :
    (fuel value : ℕ) (s : Text)
    → AreBytes s
    → length s ≤ fuel
    → characters fuel (forward_to_next_value s value) ≡ non_spaces s
unfolding characters forward_to_next_value increment non_spaces is_not_space
characters-non_spaces zero value [] bytes h = refl
characters-non_spaces (suc fuel) value [] bytes h = refl
characters-non_spaces zero value (c ∷ s) bytes h = absurd (omega arith)
characters-non_spaces (suc fuel) value (c ∷ s) (byte, bytes) h =
    let same = isspace-is_space_character c byte in
    elim (Bool-cases (is_space_character c)) [
      | inl e ↦
          rw (same, e, forward_to_next_value, non_spaces)
            (characters-non_spaces (suc fuel) c s bytes (omega arith))
      | inr e ↦
          rw (same, e, forward_to_next_value, non_spaces)
            (ap (λ (t : Text). c ∷ t) (characters-non_spaces fuel c s bytes (omega arith)))
    ]

-- The iterator gives the characters that are no spaces, and all of them.
pub without_spaces_lem : (s : Text) → AreBytes s → without_spaces s ≡ non_spaces s
unfolding without_spaces
without_spaces_lem s bytes = characters-non_spaces (length s) 0 s bytes (omega arith)
