-- ===== src/Words/Load.antt =====
-- The loads are the numbers that the bytes are.
use Prim.Native.Nat.{bit_or}
use evmc.Base.{ℕ, ◌+◌, ◌*◌, ◌^◌, ◌≤◌, ◌<◌, ◌≡◌, refl, ap, ◌∙◌, List, [], ◌∷◌, length, arith}
use evmc.Base.Bits.{bit_or-shifted, shifted-bit_or}
use evmc.Words.{load64be, load64le, load32be, load32le}

abbrev pub AreBytes : List ℕ → Type 0
AreBytes [] = Unit
AreBytes (b ∷ bytes) = (b < 256) × AreBytes bytes

-- A list that begins with eight, and with four, elements.
pub data Eight : List ℕ → Type 0 where
  eight :
      (b0 b1 b2 b3 b4 b5 b6 b7 : ℕ) (rest : List ℕ)
      → Eight (b0 ∷ b1 ∷ b2 ∷ b3 ∷ b4 ∷ b5 ∷ b6 ∷ b7 ∷ rest)

pub data Four : List ℕ → Type 0 where
  four : (b0 b1 b2 b3 : ℕ) (rest : List ℕ) → Four (b0 ∷ b1 ∷ b2 ∷ b3 ∷ rest)

pub to_Four : (bytes : List ℕ) → 4 ≤ length bytes → Four bytes
to_Four [] h = absurd (omega arith)
to_Four (a ∷ []) h = absurd (omega arith)
to_Four (a ∷ b ∷ []) h = absurd (omega arith)
to_Four (a ∷ b ∷ c ∷ []) h = absurd (omega arith)
to_Four (a ∷ b ∷ c ∷ d ∷ rest) h = four a b c d rest

pub to_Eight : (bytes : List ℕ) → 8 ≤ length bytes → Eight bytes
to_Eight [] h = absurd (omega arith)
to_Eight (a ∷ []) h = absurd (omega arith)
to_Eight (a ∷ b ∷ []) h = absurd (omega arith)
to_Eight (a ∷ b ∷ c ∷ []) h = absurd (omega arith)
to_Eight (a ∷ b ∷ c ∷ d ∷ rest) h = behind a b c d rest (to_Four rest (omega arith))
  where
    behind : (a b c d : ℕ) (rest : List ℕ) → Four rest → Eight (a ∷ b ∷ c ∷ d ∷ rest)
    behind a b c d _ (four e f g h rest) = eight a b c d e f g h rest

-- Parts of a number that share no digit, the higher or the lower one in front.
high_low : (k w s x : ℕ) → s ≡ w * 2 ^ k → x < 2 ^ k → bit_or s x ≡ s + x
high_low k w s x e h = rw e (bit_or-shifted k w x h)

low_high : (k w s x : ℕ) → x ≡ w * 2 ^ k → s < 2 ^ k → bit_or s x ≡ s + x
low_high k w s x e h = rw e (shifted-bit_or k w s h)

pub load64be_eight :
    (b0 b1 b2 b3 b4 b5 b6 b7 : ℕ) (rest : List ℕ)
    → AreBytes (b0 ∷ b1 ∷ b2 ∷ b3 ∷ b4 ∷ b5 ∷ b6 ∷ b7 ∷ [])
    → load64be (b0 ∷ b1 ∷ b2 ∷ b3 ∷ b4 ∷ b5 ∷ b6 ∷ b7 ∷ rest)
      ≡ b0 * 2 ^ 56
        + b1 * 2 ^ 48
        + b2 * 2 ^ 40
        + b3 * 2 ^ 32
        + b4 * 2 ^ 24
        + b5 * 2 ^ 16
        + b6 * 2 ^ 8
        + b7
unfolding load64be
load64be_eight b0 b1 b2 b3 b4 b5 b6 b7 rest (h0, (h1, (h2, (h3, (h4, (h5, (h6, (h7, h)))))))) =
    let e1 = high_low 56 b0 (b0 * 2 ^ 56) (b1 * 2 ^ 48) (omega arith) (omega arith) in
    let e2 =
      high_low 48 (b0 * 2 ^ 8 + b1) (b0 * 2 ^ 56 + b1 * 2 ^ 48) (b2 * 2 ^ 40) (omega arith)
        (omega arith) in
    let e3 =
      high_low 40 ((b0 * 2 ^ 8 + b1) * 2 ^ 8 + b2) (b0 * 2 ^ 56 + b1 * 2 ^ 48 + b2 * 2 ^ 40)
        (b3 * 2 ^ 32) (omega arith) (omega arith) in
    let e4 =
      high_low 32 (((b0 * 2 ^ 8 + b1) * 2 ^ 8 + b2) * 2 ^ 8 + b3)
        (b0 * 2 ^ 56 + b1 * 2 ^ 48 + b2 * 2 ^ 40 + b3 * 2 ^ 32) (b4 * 2 ^ 24) (omega arith)
        (omega arith) in
    let e5 =
      high_low 24 ((((b0 * 2 ^ 8 + b1) * 2 ^ 8 + b2) * 2 ^ 8 + b3) * 2 ^ 8 + b4)
        (b0 * 2 ^ 56 + b1 * 2 ^ 48 + b2 * 2 ^ 40 + b3 * 2 ^ 32 + b4 * 2 ^ 24) (b5 * 2 ^ 16)
        (omega arith) (omega arith) in
    let e6 =
      high_low 16 (((((b0 * 2 ^ 8 + b1) * 2 ^ 8 + b2) * 2 ^ 8 + b3) * 2 ^ 8 + b4) * 2 ^ 8 + b5)
        (b0 * 2 ^ 56 + b1 * 2 ^ 48 + b2 * 2 ^ 40 + b3 * 2 ^ 32 + b4 * 2 ^ 24 + b5 * 2 ^ 16)
        (b6 * 2 ^ 8) (omega arith) (omega arith) in
    let e7 =
      high_low 8
        ((((((b0 * 2 ^ 8 + b1) * 2 ^ 8 + b2) * 2 ^ 8 + b3) * 2 ^ 8 + b4) * 2 ^ 8 + b5) * 2 ^ 8 + b6)
        (b0 * 2 ^ 56
          + b1 * 2 ^ 48
          + b2 * 2 ^ 40
          + b3 * 2 ^ 32
          + b4 * 2 ^ 24
          + b5 * 2 ^ 16
          + b6 * 2 ^ 8)
        (b7) (omega arith) (omega arith) in
    ap (λ x. bit_or x (b7))
      (ap (λ x. bit_or x (b6 * 2 ^ 8))
          (ap (λ x. bit_or x (b5 * 2 ^ 16))
              (ap (λ x. bit_or x (b4 * 2 ^ 24))
                  (ap (λ x. bit_or x (b3 * 2 ^ 32)) (ap (λ x. bit_or x (b2 * 2 ^ 40)) (e1) ∙ e2)
                    ∙ e3)
                ∙ e4)
            ∙ e5)
        ∙ e6)
    ∙ e7

pub load64le_eight :
    (b0 b1 b2 b3 b4 b5 b6 b7 : ℕ) (rest : List ℕ)
    → AreBytes (b0 ∷ b1 ∷ b2 ∷ b3 ∷ b4 ∷ b5 ∷ b6 ∷ b7 ∷ [])
    → load64le (b0 ∷ b1 ∷ b2 ∷ b3 ∷ b4 ∷ b5 ∷ b6 ∷ b7 ∷ rest)
      ≡ b0
        + b1 * 2 ^ 8
        + b2 * 2 ^ 16
        + b3 * 2 ^ 24
        + b4 * 2 ^ 32
        + b5 * 2 ^ 40
        + b6 * 2 ^ 48
        + b7 * 2 ^ 56
unfolding load64le
load64le_eight b0 b1 b2 b3 b4 b5 b6 b7 rest (h0, (h1, (h2, (h3, (h4, (h5, (h6, (h7, h)))))))) =
    let e1 = low_high 8 b1 (b0) (b1 * 2 ^ 8) refl (omega arith) in
    let e2 = low_high 16 b2 (b0 + b1 * 2 ^ 8) (b2 * 2 ^ 16) refl (omega arith) in
    let e3 = low_high 24 b3 (b0 + b1 * 2 ^ 8 + b2 * 2 ^ 16) (b3 * 2 ^ 24) refl (omega arith) in
    let e4 =
      low_high 32 b4 (b0 + b1 * 2 ^ 8 + b2 * 2 ^ 16 + b3 * 2 ^ 24) (b4 * 2 ^ 32) refl
        (omega arith) in
    let e5 =
      low_high 40 b5 (b0 + b1 * 2 ^ 8 + b2 * 2 ^ 16 + b3 * 2 ^ 24 + b4 * 2 ^ 32) (b5 * 2 ^ 40) refl
        (omega arith) in
    let e6 =
      low_high 48 b6 (b0 + b1 * 2 ^ 8 + b2 * 2 ^ 16 + b3 * 2 ^ 24 + b4 * 2 ^ 32 + b5 * 2 ^ 40)
        (b6 * 2 ^ 48) refl (omega arith) in
    let e7 =
      low_high 56 b7
        (b0 + b1 * 2 ^ 8 + b2 * 2 ^ 16 + b3 * 2 ^ 24 + b4 * 2 ^ 32 + b5 * 2 ^ 40 + b6 * 2 ^ 48)
        (b7 * 2 ^ 56) refl (omega arith) in
    ap (λ x. bit_or x (b7 * 2 ^ 56))
      (ap (λ x. bit_or x (b6 * 2 ^ 48))
          (ap (λ x. bit_or x (b5 * 2 ^ 40))
              (ap (λ x. bit_or x (b4 * 2 ^ 32))
                  (ap (λ x. bit_or x (b3 * 2 ^ 24)) (ap (λ x. bit_or x (b2 * 2 ^ 16)) (e1) ∙ e2)
                    ∙ e3)
                ∙ e4)
            ∙ e5)
        ∙ e6)
    ∙ e7

pub load32be_four :
    (b0 b1 b2 b3 : ℕ) (rest : List ℕ)
    → AreBytes (b0 ∷ b1 ∷ b2 ∷ b3 ∷ [])
    → load32be (b0 ∷ b1 ∷ b2 ∷ b3 ∷ rest) ≡ b0 * 2 ^ 24 + b1 * 2 ^ 16 + b2 * 2 ^ 8 + b3
unfolding load32be
load32be_four b0 b1 b2 b3 rest (h0, (h1, (h2, (h3, h)))) =
    let e1 = high_low 24 b0 (b0 * 2 ^ 24) (b1 * 2 ^ 16) (omega arith) (omega arith) in
    let e2 =
      high_low 16 (b0 * 2 ^ 8 + b1) (b0 * 2 ^ 24 + b1 * 2 ^ 16) (b2 * 2 ^ 8) (omega arith)
        (omega arith) in
    let e3 =
      high_low 8 ((b0 * 2 ^ 8 + b1) * 2 ^ 8 + b2) (b0 * 2 ^ 24 + b1 * 2 ^ 16 + b2 * 2 ^ 8) (b3)
        (omega arith) (omega arith) in
    ap (λ x. bit_or x (b3)) (ap (λ x. bit_or x (b2 * 2 ^ 8)) (e1) ∙ e2) ∙ e3

pub load32le_four :
    (b0 b1 b2 b3 : ℕ) (rest : List ℕ)
    → AreBytes (b0 ∷ b1 ∷ b2 ∷ b3 ∷ [])
    → load32le (b0 ∷ b1 ∷ b2 ∷ b3 ∷ rest) ≡ b0 + b1 * 2 ^ 8 + b2 * 2 ^ 16 + b3 * 2 ^ 24
unfolding load32le
load32le_four b0 b1 b2 b3 rest (h0, (h1, (h2, (h3, h)))) =
    let e1 = low_high 8 b1 (b0) (b1 * 2 ^ 8) refl (omega arith) in
    let e2 = low_high 16 b2 (b0 + b1 * 2 ^ 8) (b2 * 2 ^ 16) refl (omega arith) in
    let e3 = low_high 24 b3 (b0 + b1 * 2 ^ 8 + b2 * 2 ^ 16) (b3 * 2 ^ 24) refl (omega arith) in
    ap (λ x. bit_or x (b3 * 2 ^ 24)) (ap (λ x. bit_or x (b2 * 2 ^ 16)) (e1) ∙ e2) ∙ e3
