-- ===== src/Words/Equal.antt =====
-- The equality tests of `address` and `bytes32` are equality of the arrays.
use evmc.Base.{
  ℕ, zero, suc, ◌+◌, ◌*◌, ◌≤◌, ◌≡◌, ◌↔◌, refl, sym, ap, ◌∙◌, true, List, [], ◌∷◌, ◌++◌, length,
  length-drop, length-take, take, drop, drop_nil, drop_sum, take-append-drop, arith,
}
use evmc.Words.{load64le, load32le, equal_address, equal_bytes32}
use evmc.Words.Load.{
  AreBytes, Eight, eight, to_Eight, Four, four, to_Four, load64le_eight, load32le_four,
}
use evmc.Words.Order.{AreBytes-drop, AreBytes-take}

-- The number of bytes in little endian order.
abbrev little : List ℕ → ℕ
little [] = 0
little (b ∷ bytes) = b + 256 * little bytes

little-inj :
    (a b : List ℕ) → length a ≡ length b → AreBytes a → AreBytes b → little a ≡ little b → a ≡ b
little-inj [] [] size ok_a ok_b e = refl
little-inj [] (y ∷ b) size ok_a ok_b e = absurd (omega arith)
little-inj (x ∷ a) [] size ok_a ok_b e = absurd (omega arith)
little-inj (x ∷ a) (y ∷ b) size (hx, ok_a) (hy, ok_b) e =
    let head : x ≡ y = omega arith in
    let tail : a ≡ b = little-inj a b (omega arith) ok_a ok_b (omega arith) in
    ap (λ (z : ℕ). z ∷ a) head ∙ ap (λ (l : List ℕ). y ∷ l) tail

of_Eight :
    (bytes : List ℕ)
    → Eight bytes
    → AreBytes (take 8 bytes)
    → load64le bytes ≡ little (take 8 bytes)
of_Eight _ (eight b0 b1 b2 b3 b4 b5 b6 b7 rest) ok =
    omega (arith, load64le_eight b0 b1 b2 b3 b4 b5 b6 b7 rest ok)

of_Four :
    (bytes : List ℕ) → Four bytes → AreBytes (take 4 bytes) → load32le bytes ≡ little (take 4 bytes)
of_Four _ (four b0 b1 b2 b3 rest) ok = omega (arith, load32le_four b0 b1 b2 b3 rest ok)

-- Equal loads at an index are equal bytes there.
load64le-same :
    (i : ℕ) (a b : List ℕ)
    → i + 8 ≤ length a
    → length a ≡ length b
    → AreBytes a
    → AreBytes b
    → load64le (drop i a) ≡ load64le (drop i b)
    → take 8 (drop i a) ≡ take 8 (drop i b)
load64le-same i a b room size ok_a ok_b e =
    let size_a = length-drop i a in
    let size_b = length-drop i b in
    let fit_a : 8 ≤ length (drop i a) = omega (arith, size_a) in
    let fit_b : 8 ≤ length (drop i b) = omega (arith, size_b) in
    let are_a = AreBytes-take 8 (drop i a) (AreBytes-drop i a ok_a) in
    let are_b = AreBytes-take 8 (drop i b) (AreBytes-drop i b ok_b) in
    little-inj (take 8 (drop i a)) (take 8 (drop i b))
      (length-take 8 (drop i a) fit_a ∙ sym (length-take 8 (drop i b) fit_b)) are_a are_b
      (sym (of_Eight (drop i a) (to_Eight (drop i a) fit_a) are_a)
        ∙ e
        ∙ of_Eight (drop i b) (to_Eight (drop i b) fit_b) are_b)

load32le-same :
    (i : ℕ) (a b : List ℕ)
    → i + 4 ≤ length a
    → length a ≡ length b
    → AreBytes a
    → AreBytes b
    → load32le (drop i a) ≡ load32le (drop i b)
    → take 4 (drop i a) ≡ take 4 (drop i b)
load32le-same i a b room size ok_a ok_b e =
    let size_a = length-drop i a in
    let size_b = length-drop i b in
    let fit_a : 4 ≤ length (drop i a) = omega (arith, size_a) in
    let fit_b : 4 ≤ length (drop i b) = omega (arith, size_b) in
    let are_a = AreBytes-take 4 (drop i a) (AreBytes-drop i a ok_a) in
    let are_b = AreBytes-take 4 (drop i b) (AreBytes-drop i b ok_b) in
    little-inj (take 4 (drop i a)) (take 4 (drop i b))
      (length-take 4 (drop i a) fit_a ∙ sym (length-take 4 (drop i b) fit_b)) are_a are_b
      (sym (of_Four (drop i a) (to_Four (drop i a) fit_a) are_a)
        ∙ e
        ∙ of_Four (drop i b) (to_Four (drop i b) fit_b) are_b)

-- Bytes that agree up to an index and from it on.
joined :
    (k i n : ℕ) (a b : List ℕ)
    → k ≡ i + n
    → take n (drop i a) ≡ take n (drop i b)
    → drop k a ≡ drop k b
    → drop i a ≡ drop i b
joined k i n a b e front back =
    sym (take-append-drop n (drop i a))
    ∙ ap (λ (l : List ℕ). l ++ drop n (drop i a)) front
    ∙ ap (λ (l : List ℕ). take n (drop i b) ++ l)
        (sym (drop_sum k i n a e) ∙ back ∙ drop_sum k i n b e)
    ∙ take-append-drop n (drop i b)

drop-end : (n : ℕ) (xs : List ℕ) → length xs ≤ n → drop n xs ≡ []
drop-end n [] h = drop_nil n
drop-end zero (x ∷ xs) h = absurd (omega arith)
drop-end (suc n) (x ∷ xs) h = drop-end n xs (omega arith)

-- Two `bytes32` are equal by their test exactly if their bytes are.
pub equal_bytes32_iff :
    (a b : List ℕ)
    → length a ≡ 32
    → length b ≡ 32
    → AreBytes a
    → AreBytes b
    → (equal_bytes32 a b ≡ true) ↔ (a ≡ b)
unfolding equal_bytes32
equal_bytes32_iff a b size_a size_b ok_a ok_b = (forward, λ e. rw e (ground arith))
  where
    forward : equal_bytes32 a b ≡ true → a ≡ b
    forward h =
        let same : length a ≡ length b = omega arith in
        joined 8 0 8 a b refl (load64le-same 0 a b (omega arith) same ok_a ok_b (ground arith)) (
          joined 16 8 8 a b refl (load64le-same 8 a b (omega arith) same ok_a ok_b (ground arith)) (
            joined 24 16 8 a b refl
              (load64le-same 16 a b (omega arith) same ok_a ok_b (ground arith))
              (joined 32 24 8 a b refl
                (load64le-same 24 a b (omega arith) same ok_a ok_b (ground arith))
                (drop-end 32 a (omega arith) ∙ sym (drop-end 32 b (omega arith))))))

-- Two addresses are equal by their test exactly if their bytes are.
pub equal_address_iff :
    (a b : List ℕ)
    → length a ≡ 20
    → length b ≡ 20
    → AreBytes a
    → AreBytes b
    → (equal_address a b ≡ true) ↔ (a ≡ b)
unfolding equal_address
equal_address_iff a b size_a size_b ok_a ok_b = (forward, λ e. rw e (ground arith))
  where
    forward : equal_address a b ≡ true → a ≡ b
    forward h =
        let same : length a ≡ length b = omega arith in
        joined 8 0 8 a b refl (load64le-same 0 a b (omega arith) same ok_a ok_b (ground arith)) (
          joined 16 8 8 a b refl (load64le-same 8 a b (omega arith) same ok_a ok_b (ground arith)) (
            joined 20 16 4 a b refl
              (load32le-same 16 a b (omega arith) same ok_a ok_b (ground arith))
              (drop-end 20 a (omega arith) ∙ sym (drop-end 20 b (omega arith)))))
