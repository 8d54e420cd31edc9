-- ===== src/Base/Bits.antt =====
-- `bit_or` of a shifted number and one below the shift, in either order, is their sum.
use Prim.Native.Nat.max
use Prim.Native.Nat.{
  ℕ, zero, suc, ◌+◌, ◌*◌, ◌/◌, ◌%◌, ◌^◌, ◌≤◌, ◌<◌, max, digits, bit_or, bit_or-bitwise,
}
use native.Mathlib.Nat.{max_comm}
use mathlib.Core.Path.{◌≡◌, refl, ap, ◌∙◌}
use native.Mathlib.Omega.{arith}

-- `count` digits of the first number, lowest first.
abbrev or_of_digits : ℕ → ℕ → ℕ → ℕ
or_of_digits count high low = digits (λ rest. rest) max count high low

abbrev Shifted : ℕ → ℕ → ℕ → Type 0
Shifted k w x = x ≡ w * 2 ^ k

half-Shifted : (k w x : ℕ) → Shifted (suc k) w x → Shifted k w (x / 2) × (x % 2 ≡ 0)
half-Shifted k w x e =
    let power : 2 ^ suc k ≡ 2 ^ k * 2 = omega arith in
    let twice : x ≡ (w * 2 ^ k) * 2 = omega (arith, e, ap (λ p. w * p) power) in
    (omega (arith, twice), omega (arith, twice))

zeros_below : (count x : ℕ) → x ≤ count → or_of_digits count x 0 ≡ x
zeros_below zero x few = omega arith
zeros_below (suc count) zero few = refl
zeros_below (suc count) (suc x) few = omega (
  arith,
  zeros_below count (suc x / 2) (omega arith),
  max_comm (suc x % 2) 0,
  max.zero (suc x % 2),
)

high_first :
    (k count w x b : ℕ) → Shifted k w x → b < 2 ^ k → x ≤ count → or_of_digits count x b ≡ x + b
high_first zero count w x b e small few =
    let none : b ≡ 0 = omega arith in rw none (zeros_below count x few ∙ omega arith)
high_first (suc k) zero w x b e small few = omega arith
high_first (suc k) (suc count) w zero b e small few = omega arith
high_first (suc k) (suc count) w (suc x) b e small few =
    let (shifted, even) = half-Shifted k w (suc x) e in
    omega (
      arith,
      even,
      ap (λ d. max d (b % 2)) even ∙ max.zero (b % 2),
      high_first k count w (suc x / 2) (b / 2) shifted (omega arith) (omega arith),
    )

low_first :
    (k count w x b : ℕ) → Shifted k w x → b < 2 ^ k → b ≤ count → or_of_digits count b x ≡ b + x
low_first k zero w x b e small few = omega arith
low_first k (suc count) w x zero e small few = omega arith
low_first zero (suc count) w x (suc b) e small few = absurd (omega arith)
low_first (suc k) (suc count) w x (suc b) e small few =
    let (shifted, even) = half-Shifted k w x e in
    omega (
      arith,
      even,
      ap (λ d. max (suc b % 2) d) even ∙ max_comm (suc b % 2) 0 ∙ max.zero (suc b % 2),
      low_first k count w (x / 2) (suc b / 2) shifted (omega arith) (omega arith),
    )

-- The numbers share no digit.
pub bit_or-shifted : (k w b : ℕ) → b < 2 ^ k → bit_or (w * 2 ^ k) b ≡ w * 2 ^ k + b
bit_or-shifted k w b small =
    let x = w * 2 ^ k in bit_or-bitwise x b ∙ high_first k x w x b refl small (omega arith)

pub shifted-bit_or : (k w b : ℕ) → b < 2 ^ k → bit_or b (w * 2 ^ k) ≡ b + w * 2 ^ k
shifted-bit_or k w b small =
    let x = w * 2 ^ k in bit_or-bitwise b x ∙ low_first k b w x b refl small (omega arith)
