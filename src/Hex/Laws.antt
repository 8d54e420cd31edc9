-- ===== src/Hex/Laws.antt =====
-- What is read back from hex strings.
use mathlib.Core.Option
use evmc.Base.{
  ℕ, zero, suc, ◌+◌, ◌-◌, ◌*◌, ◌/◌, ◌%◌, ◌^◌, ◌≤◌, ◌<◌, ◌≡◌, refl, sym, ap, ◌∙◌, Bool, true, false,
  not, ◌&&◌, Option, none, some, List, [], ◌∷◌, ◌++◌, arith, ltb, ◌==◌, if◌then◌else◌, Option-cases,
  Bool-cases, inl, inr, length, replicate, take, drop, append-nil,
}
use evmc.Base.Tables.{each_below, each_below-at}
use evmc.CString.{Text, text}
use evmc.Hex.{
  hex_digit, hex, from_hex_digit, from_hex_loop, from_hex, accepted, remove_prefix, write_from,
  from_hex_array, from_spaced_hex,
}
use evmc.Hex.Spaces.{AreBytes, non_spaces, without_spaces_lem}
use evmc.Hex.Decode.{decode_pairs, from_hex-decode_pairs}

abbrev digit_test : ℕ → Bool
digit_test n = elim (from_hex_digit (hex_digit n)) [ none ↦ false | some v ↦ v == n ]

digit_table : each_below digit_test 16 ≡ true
unfolding each_below hex_digit from_hex_digit
digit_table = refl

from_hex_digit-hex_digit : (n : ℕ) → n < 16 → from_hex_digit (hex_digit n) ≡ some n
from_hex_digit-hex_digit n h = ground (arith, each_below-at digit_test 16 n h digit_table)

decode_pairs-cons :
    (c d a b : ℕ) (s : Text)
    → from_hex_digit c ≡ some a
    → from_hex_digit d ≡ some b
    → decode_pairs (c ∷ d ∷ s) ≡ Option.map (λ bs. (a * 16 + b) ∷ bs) (decode_pairs s)
unfolding decode_pairs
decode_pairs-cons c d a b s ea eb = rw (ea, eb, decode_pairs) refl

decode_pairs-hex : (bs : List ℕ) → AreBytes bs → decode_pairs (hex bs) ≡ some bs
unfolding hex
decode_pairs-hex [] h = unfold decode_pairs in refl
decode_pairs-hex (b ∷ bs) (hb, hs) =
    decode_pairs-cons (hex_digit (b / 2 ^ 4)) (hex_digit (b % 2 ^ 4)) (b / 2 ^ 4) (b % 2 ^ 4)
      (hex bs) (from_hex_digit-hex_digit (b / 2 ^ 4) (omega arith))
      (from_hex_digit-hex_digit (b % 2 ^ 4) (omega arith))
    ∙ ap (Option.map (λ r. (b / 2 ^ 4 * 16 + b % 2 ^ 4) ∷ r)) (decode_pairs-hex bs hs)
    ∙ ap (λ (x : ℕ). some (x ∷ bs)) (omega arith)

abbrev no_x_test : ℕ → Bool
no_x_test n = not (hex_digit n == b'x')

no_x_table : each_below no_x_test 16 ≡ true
unfolding each_below hex_digit
no_x_table = refl

-- A string of whole bytes begins with no prefix.
pub remove_prefix-hex : (bs : List ℕ) → AreBytes bs → remove_prefix (hex bs) ≡ hex bs
unfolding remove_prefix hex
remove_prefix-hex [] h = refl
remove_prefix-hex (b ∷ bs) (hb, hs) =
    let digit = each_below-at no_x_test 16 (b % 2 ^ 4) (omega arith) no_x_table in
    let test : (hex_digit (b / 2 ^ 4) == b'0' && hex_digit (b % 2 ^ 4) == b'x') ≡ false =
      ground arith in
    rw test refl

-- Bytes are read back from their hex string, with and without "0x" in front of it.
pub from_hex-hex :
    (bs : List ℕ)
    → AreBytes bs
    → (from_hex (hex bs) ≡ some bs) × (from_hex (text "0x" ++ hex bs) ≡ some bs)
from_hex-hex bs h =
    let behind : remove_prefix (text "0x" ++ hex bs) ≡ hex bs = unfold remove_prefix in refl in
    (
      from_hex-decode_pairs (hex bs)
          ∙ ap decode_pairs (remove_prefix-hex bs h)
          ∙ decode_pairs-hex bs h,
      from_hex-decode_pairs (text "0x" ++ hex bs) ∙ ap decode_pairs behind ∙ decode_pairs-hex bs h,
    )

-- For a string of bytes, the space and the characters with the codes 9 to 13 are ignored wherever
-- they stand, also inside a prefix or between two digits: what is read are the pairs of the other
-- characters, behind a "0x" if they begin so.
pub from_spaced_hex-decode_pairs :
    (s : Text) → AreBytes s → from_spaced_hex s ≡ decode_pairs (remove_prefix (non_spaces s))
unfolding from_spaced_hex from_hex
from_spaced_hex-decode_pairs s bytes =
    ap (λ (t : Text). accepted (from_hex_loop 0 none t)) (without_spaces_lem s bytes)
    ∙ from_hex-decode_pairs (non_spaces s)

length-decode_pairs : (s : Text) (bs : List ℕ) → decode_pairs s ≡ some bs → length bs * 2 ≡ length s
unfolding decode_pairs
length-decode_pairs [] bs h = ground arith
length-decode_pairs (c ∷ []) bs h = ground arith
length-decode_pairs (c ∷ d ∷ s) bs h = elim (Option-cases (from_hex_digit c)) [
  | inl e ↦ let read : none ≡ some bs = rw (e, decode_pairs) at h in absurd (cc read)
  | inr (a, ea) ↦ elim (Option-cases (from_hex_digit d)) [
    | inl e ↦ let read : none ≡ some bs = rw (ea, e, decode_pairs) at h in absurd (cc read)
    | inr (b, eb) ↦
        let read = sym (decode_pairs-cons c d a b s ea eb) ∙ h in
        elim (Option-cases (decode_pairs s)) [
          | inl e ↦ let lost : none ≡ some bs = rw e at read in absurd (cc lost)
          | inr (r, er) ↦
              let taken : some ((a * 16 + b) ∷ r) ≡ some bs = rw er at read in
              let same : (a * 16 + b) ∷ r ≡ bs = cc taken in
              omega (arith, ap length same, length-decode_pairs s r er)
        ]
  ]
]

abbrev pub zeros : ℕ → List ℕ
zeros n = replicate n 0

take-zeros : (m n : ℕ) → m ≤ n → take m (zeros n) ≡ zeros m
take-zeros zero n h = refl
take-zeros (suc m) zero h = absurd (omega arith)
take-zeros (suc m) (suc n) h = ap (λ (l : List ℕ). 0 ∷ l) (take-zeros m n (omega arith))

drop-zeros : (m k n : ℕ) → m + k ≡ n → drop m (zeros n) ≡ zeros k
drop-zeros zero k n e = ap zeros (omega arith)
drop-zeros (suc m) k zero e = absurd (omega arith)
drop-zeros (suc m) k (suc n) e = drop-zeros m k n (omega arith)

write_from-zeros :
    (i k n : ℕ) (bs : List ℕ)
    → i + length bs + k ≡ n
    → write_from i bs (zeros n) ≡ zeros i ++ (bs ++ zeros k)
write_from-zeros i k n bs e =
    ap (λ (l : List ℕ). l ++ (bs ++ drop (i + length bs) (zeros n))) (take-zeros i n (omega arith))
    ∙ ap (λ (l : List ℕ). zeros i ++ (bs ++ l)) (drop-zeros (i + length bs) k n e)

-- The bytes at the end of an array, behind zeros, if they fit.
abbrev pub right_aligned : ℕ → Option (List ℕ) → Option (List ℕ)
right_aligned n none = none
right_aligned n (some bs) = if ltb n (length bs) then none else some (zeros (n - length bs) ++ bs)

array_of :
    (n : ℕ) (t : Text) (o : Option (List ℕ))
    → decode_pairs t ≡ o
    → (if ltb n (length t / 2)
        then none
        else Option.map (λ bs. write_from (n - length t / 2) bs (zeros n)) o)
      ≡ right_aligned n o
array_of n t none e = ground arith
array_of n t (some bs) e =
    let half : length t / 2 ≡ length bs = omega (arith, length-decode_pairs t bs e) in
    elim (Bool-cases (ltb n (length bs))) [
      | inl long ↦ rw (half, long) refl
      | inr fits ↦
          let room : n - length bs + length bs + 0 ≡ n = ground arith in
          rw (half, fits)
            (ap some (
              write_from-zeros (n - length bs) 0 n bs room
              ∙ ap (λ (l : List ℕ). zeros (n - length bs) ++ l) (rw append-nil refl)))
    ]

-- For a string with at most one "0x" in front, the variant for arrays answers with the bytes of the
-- digits behind it, at the end of the array and behind zeros, or refuses the string where it is
-- no hex string or has more bytes than the array.
pub from_hex_array-right_aligned :
    (n : ℕ) (s : Text)
    → remove_prefix (remove_prefix s) ≡ remove_prefix s
    → from_hex_array n s ≡ right_aligned n (decode_pairs (remove_prefix s))
unfolding from_hex_array
from_hex_array-right_aligned n s once =
    let t = remove_prefix s in
    let reads : accepted (from_hex_loop 0 none t) ≡ decode_pairs t =
      unfold from_hex in from_hex-decode_pairs t ∙ ap decode_pairs once in
    rw reads (array_of n t (decode_pairs t) refl)

-- With "0x" twice in front of the hex string of bytes: it is accepted where the array has room for
-- one byte more, but then the bytes stand one place to the left of the end of the array, with a
-- zero behind them; without that room the string is refused.
pub from_hex_array-twice :
    (n : ℕ) (bs : List ℕ)
    → AreBytes bs
    → from_hex_array n (text "0x0x" ++ hex bs)
      ≡ (if ltb (length bs) n then some (zeros (n - length bs - 1) ++ (bs ++ (0 ∷ []))) else none)
unfolding from_hex_array
from_hex_array-twice n bs h =
    let s = text "0x" ++ hex bs in
    let one : remove_prefix (text "0x" ++ s) ≡ s = unfold remove_prefix in refl in
    let two : remove_prefix s ≡ hex bs = unfold remove_prefix in refl in
    let reads : accepted (from_hex_loop 0 none s) ≡ some bs =
      unfold from_hex in from_hex-decode_pairs s ∙ ap decode_pairs two ∙ decode_pairs-hex bs h in
    let half : length s / 2 ≡ length bs + 1 =
      omega (arith, length-decode_pairs (hex bs) bs (decode_pairs-hex bs h)) in
    let left : n - (length bs + 1) ≡ n - length bs - 1 = omega arith in
    elim (Bool-cases (ltb (length bs) n)) [
      | inl e ↦
          let fits : ltb n (length bs + 1) ≡ false = ground arith in
          let room : n - length bs - 1 + length bs + 1 ≡ n = ground arith in
          rw (one, half, fits, reads, left, e)
            (ap some (write_from-zeros (n - length bs - 1) 1 n bs room))
      | inr e ↦
          let long : ltb n (length bs + 1) ≡ true = ground arith in rw (one, half, long, e) refl
    ]
