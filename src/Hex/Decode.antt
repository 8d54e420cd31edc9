-- ===== src/Hex/Decode.antt =====
-- Hex strings by pairs of digits, and that the loop of `from_hex` reads them so.
use mathlib.Core.Option
use evmc.Base.{
  ℕ, suc, ◌+◌, ◌*◌, ◌%◌, ◌^◌, ◌≤◌, ◌<◌, ◌≡◌, ◌≢◌, refl, sym, ap, ◌∙◌, Bool, true, false, ◌&&◌,
  Option, none, some, List, [], ◌∷◌, arith, ◌==◌, if◌then◌else◌, Option-cases, Bool-cases, inl, inr,
}
use evmc.Base.Bits.{bit_or-shifted}
use evmc.CString.{Text}
use evmc.Hex.{from_hex_digit, from_hex_loop, from_hex, accepted, byte_of, remove_prefix}

-- Two digits for each byte.
unfoldable pub decode_pairs : Text → Option (List ℕ)
decode_pairs [] = some []
decode_pairs (c ∷ []) = none
decode_pairs (c ∷ d ∷ s) = elim (from_hex_digit c) [
  | none ↦ none
  | some a ↦ elim (from_hex_digit d) [
    | none ↦ none
    | some b ↦ Option.map (λ bs. (a * 16 + b) ∷ bs) (decode_pairs s)
  ]
]

pub from_hex_digit-lt : (c v : ℕ) → from_hex_digit c ≡ some v → v < 16
unfolding from_hex_digit
from_hex_digit-lt c v h = ground arith

byte_of-sum : (a b : ℕ) → a < 16 → b < 16 → byte_of (some (a * 2 ^ 4)) b ≡ a * 16 + b
byte_of-sum a b ha hb = omega (arith, bit_or-shifted 4 a b (omega arith))

accepted-cons :
    (r : Bool × List ℕ) (b : ℕ) → accepted (r.0, b ∷ r.1) ≡ Option.map (λ bs. b ∷ bs) (accepted r)
accepted-cons (true, bs) b = refl
accepted-cons (false, bs) b = refl

-- A round of the loop at a digit, at an even and at an odd index, and at another character.
even_round :
    (i : ℕ) (hi : Option ℕ) (c v : ℕ) (s : Text)
    → i % 2 ≡ 0
    → from_hex_digit c ≡ some v
    → from_hex_loop i hi (c ∷ s) ≡ from_hex_loop (suc i) (some (v * 2 ^ 4)) s
unfolding from_hex_loop
even_round i hi c v s even e =
    let test : (i % 2 == 0) ≡ true = ground arith in rw (e, test, from_hex_loop) refl

odd_round :
    (i : ℕ) (hi : Option ℕ) (c v : ℕ) (s : Text)
    → i % 2 ≡ 1
    → from_hex_digit c ≡ some v
    → from_hex_loop i hi (c ∷ s)
      ≡ ((from_hex_loop (suc i) hi s).0, byte_of hi v ∷ (from_hex_loop (suc i) hi s).1)
unfolding from_hex_loop
odd_round i hi c v s odd e =
    let test : (i % 2 == 0) ≡ false = ground arith in rw (e, test, from_hex_loop) refl

bad_round :
    (i : ℕ) (hi : Option ℕ) (c : ℕ) (s : Text)
    → i ≢ 1
    → from_hex_digit c ≡ none
    → from_hex_loop i hi (c ∷ s) ≡ (false, [])
unfolding from_hex_loop
bad_round i hi c s second e =
    let test : (i == 1) ≡ false = ground arith in rw (e, test, from_hex_loop) refl

-- From an even index other than 0 on, the loop reads pairs of digits.
loop-decode_pairs :
    (i : ℕ) (hi : Option ℕ) (s : Text)
    → 2 ≤ i
    → i % 2 ≡ 0
    → accepted (from_hex_loop i hi s) ≡ decode_pairs s
loop-decode_pairs i hi [] small even =
    let test : (i % 2 == 0) ≡ true = ground arith in
    unfold from_hex_loop decode_pairs in rw test refl
loop-decode_pairs i hi (c ∷ []) small even = elim (Option-cases (from_hex_digit c)) [
  | inl e ↦ ap accepted (bad_round i hi c [] (omega arith) e) ∙ unfold decode_pairs in refl
  | inr (a, e) ↦
      let test : (suc i % 2 == 0) ≡ false = ground arith in
      ap accepted (even_round i hi c a [] even e)
      ∙ unfold from_hex_loop decode_pairs in rw test refl
]
loop-decode_pairs i hi (c ∷ d ∷ s) small even = elim (Option-cases (from_hex_digit c)) [
  | inl e ↦
      ap accepted (bad_round i hi c (d ∷ s) (omega arith) e)
      ∙ unfold decode_pairs in rw (e, decode_pairs) refl
  | inr (a, ea) ↦ elim (Option-cases (from_hex_digit d)) [
    | inl e ↦
        ap accepted (even_round i hi c a (d ∷ s) even ea ∙ bad_round (suc i) _ d s (omega arith) e)
        ∙ unfold decode_pairs in rw (ea, e, decode_pairs) refl
    | inr (b, eb) ↦
        let rest = from_hex_loop (suc (suc i)) (some (a * 2 ^ 4)) s in
        ap accepted
          (even_round i hi c a (d ∷ s) even ea ∙ odd_round (suc i) _ d b s (omega arith) eb)
        ∙ accepted-cons rest (byte_of (some (a * 2 ^ 4)) b)
        ∙ ap (λ (x : ℕ). Option.map (λ bs. x ∷ bs) (accepted rest))
            (byte_of-sum a b (from_hex_digit-lt c a ea) (from_hex_digit-lt d b eb))
        ∙ ap (Option.map (λ bs. (a * 16 + b) ∷ bs))
            (loop-decode_pairs (suc (suc i)) (some (a * 2 ^ 4)) s (omega arith) (omega arith))
        ∙ unfold decode_pairs in rw (ea, eb, decode_pairs) refl
  ]
]

digit-zero : (c : ℕ) → from_hex_digit c ≡ some 0 → c ≡ b'0'
unfolding from_hex_digit
digit-zero c h = ground arith

no_digit_x : from_hex_digit b'x' ≡ none
unfolding from_hex_digit
no_digit_x = refl

zero_digit : from_hex_digit b'0' ≡ some 0
unfolding from_hex_digit
zero_digit = refl

-- The second round, at a character that is no digit: the prefix is complete or the string is refused.
second_round :
    (n d : ℕ) (s : Text)
    → from_hex_digit d ≡ none
    → from_hex_loop 1 (some n) (d ∷ s)
      ≡ (if n == 0 && d == b'x' then from_hex_loop 2 (some n) s else (false, []))
unfolding from_hex_loop
second_round n d s e = rw (e, from_hex_loop) (ground arith)

keeps_prefix :
    (c d : ℕ) (s : Text) → (c == b'0' && d == b'x') ≡ false → remove_prefix (c ∷ d ∷ s) ≡ c ∷ d ∷ s
unfolding remove_prefix
keeps_prefix c d s e = rw e refl

-- The first two characters are the prefix, or two digits, or the string is refused.
two_characters :
    (c d : ℕ) (s : Text)
    → accepted (from_hex_loop 0 none (c ∷ d ∷ s)) ≡ decode_pairs (remove_prefix (c ∷ d ∷ s))
two_characters c d s = elim (Option-cases (from_hex_digit c)) [
  | inl e ↦
      let kept : (c == b'0' && d == b'x') ≡ false = ground (arith, zero_digit) in
      ap accepted (bad_round 0 none c (d ∷ s) (omega arith) e)
      ∙ rw (keeps_prefix c d s kept) (unfold decode_pairs in rw (e, decode_pairs) refl)
  | inr (a, ea) ↦ elim (Option-cases (from_hex_digit d)) [
    | inr (b, eb) ↦
        let kept : (c == b'0' && d == b'x') ≡ false = ground (arith, no_digit_x) in
        let rest = from_hex_loop 2 (some (a * 2 ^ 4)) s in
        ap accepted (even_round 0 none c a (d ∷ s) refl ea ∙ odd_round 1 _ d b s refl eb)
        ∙ accepted-cons rest (byte_of (some (a * 2 ^ 4)) b)
        ∙ ap (λ (x : ℕ). Option.map (λ bs. x ∷ bs) (accepted rest))
            (byte_of-sum a b (from_hex_digit-lt c a ea) (from_hex_digit-lt d b eb))
        ∙ ap (Option.map (λ bs. (a * 16 + b) ∷ bs))
            (loop-decode_pairs 2 (some (a * 2 ^ 4)) s (omega arith) refl)
        ∙ rw (keeps_prefix c d s kept) (unfold decode_pairs in rw (ea, eb, decode_pairs) refl)
    | inl eb ↦
        let start = even_round 0 none c a (d ∷ s) refl ea ∙ second_round (a * 2 ^ 4) d s eb in
        elim (Bool-cases (c == b'0' && d == b'x')) [
          | inl p ↦
              let zero : a ≡ 0 = ground (arith, zero_digit) in
              let taken : (a * 2 ^ 4 == 0 && d == b'x') ≡ true = ground arith in
              let dropped : remove_prefix (c ∷ d ∷ s) ≡ s = unfold remove_prefix in rw p refl in
              let reads : from_hex_loop 0 none (c ∷ d ∷ s) ≡ from_hex_loop 2 (some (a * 2 ^ 4)) s =
                rw taken at start in
              ap accepted reads
              ∙ loop-decode_pairs 2 (some (a * 2 ^ 4)) s (omega arith) refl
              ∙ ap decode_pairs (sym dropped)
          | inr p ↦
              let refused : (a * 2 ^ 4 == 0 && d == b'x') ≡ false = ground (arith, digit-zero c) in
              let refuses : from_hex_loop 0 none (c ∷ d ∷ s) ≡ (false, []) = rw refused at start in
              let unread : decode_pairs (c ∷ d ∷ s) ≡ none =
                unfold decode_pairs in rw (ea, eb, decode_pairs) refl in
              ap accepted refuses ∙ sym (ap decode_pairs (keeps_prefix c d s p) ∙ unread)
        ]
  ]
]

-- `from_hex` drops one "0x" in front and reads pairs of digits behind it: it answers with their
-- bytes, or refuses the string where a character is no digit or a digit has no second.
pub from_hex-decode_pairs : (s : Text) → from_hex s ≡ decode_pairs (remove_prefix s)
unfolding from_hex remove_prefix
from_hex-decode_pairs [] = unfold from_hex_loop decode_pairs in refl
from_hex-decode_pairs (c ∷ []) = elim (Option-cases (from_hex_digit c)) [
  | inl e ↦ ap accepted (bad_round 0 none c [] (omega arith) e) ∙ unfold decode_pairs in refl
  | inr (a, e) ↦
      ap accepted (even_round 0 none c a [] refl e) ∙ unfold from_hex_loop decode_pairs in refl
]
from_hex-decode_pairs (c ∷ d ∷ s) = two_characters c d s
