-- ===== src/Words/Order.antt =====
-- The comparisons of `address` and `bytes32` are those of the numbers and of the arrays.
use evmc.Base.{
  ℕ, zero, suc, ◌+◌, ◌*◌, ◌^◌, ◌≤◌, ◌<◌, ◌≡◌, refl, sym, ap, ◌∙◌, Bool, ◌&&◌, ◌||◌, List, [], ◌∷◌,
  length, length-drop, take, drop, drop_nil, drop_sum, ltb, ◌==◌, arith,
}
use evmc.Base.Words.{word_of_bytes, word_onto}
use evmc.Words.{load64be, load32be, less_address, less_bytes32}
use evmc.Words.Load.{
  AreBytes, Eight, eight, to_Eight, Four, four, to_Four, load64be_eight, load32be_four,
}

pub AreBytes-drop : (n : ℕ) (bytes : List ℕ) → AreBytes bytes → AreBytes (drop n bytes)
AreBytes-drop zero bytes h = h
AreBytes-drop (suc n) [] h = h
AreBytes-drop (suc n) (b ∷ bytes) (hb, h) = AreBytes-drop n bytes h

pub AreBytes-take : (n : ℕ) (bytes : List ℕ) → AreBytes bytes → AreBytes (take n bytes)
AreBytes-take zero bytes h = tt
AreBytes-take (suc n) [] h = tt
AreBytes-take (suc n) (b ∷ bytes) (hb, h) = (hb, AreBytes-take n bytes h)

of_Eight :
    (w : ℕ) (bytes : List ℕ)
    → Eight bytes
    → AreBytes (take 8 bytes)
    → (load64be bytes < 2 ^ 64)
      × (word_onto w bytes ≡ word_onto (w * 2 ^ 64 + load64be bytes) (drop 8 bytes))
unfolding word_onto
of_Eight w _ (eight b0 b1 b2 b3 b4 b5 b6 b7 rest) ok =
    let load = load64be_eight b0 b1 b2 b3 b4 b5 b6 b7 rest ok in
    (omega (arith, load, ok), ap (λ v. word_onto v rest) (omega (arith, load)))

-- The load takes the first eight bytes of a number.
word_onto-load64be :
    (w : ℕ) (bytes : List ℕ)
    → 8 ≤ length bytes
    → AreBytes bytes
    → (load64be bytes < 2 ^ 64)
      × (word_onto w bytes ≡ word_onto (w * 2 ^ 64 + load64be bytes) (drop 8 bytes))
word_onto-load64be w bytes long ok =
    of_Eight w bytes (to_Eight bytes long) (AreBytes-take 8 bytes ok)

of_Four :
    (w : ℕ) (bytes : List ℕ)
    → Four bytes
    → length bytes ≡ 4
    → AreBytes bytes
    → (load32be bytes < 2 ^ 32) × (word_onto w bytes ≡ w * 2 ^ 32 + load32be bytes)
unfolding word_onto
of_Four w _ (four b0 b1 b2 b3 []) long ok =
    let load = load32be_four b0 b1 b2 b3 [] ok in (omega (arith, load, ok), omega (arith, load))
of_Four w _ (four b0 b1 b2 b3 (b ∷ rest)) long ok = absurd (omega arith)

word_onto-load32be :
    (w : ℕ) (bytes : List ℕ)
    → length bytes ≡ 4
    → AreBytes bytes
    → (load32be bytes < 2 ^ 32) × (word_onto w bytes ≡ w * 2 ^ 32 + load32be bytes)
word_onto-load32be w bytes long ok = of_Four w bytes (to_Four bytes (omega arith)) long ok

-- Digits compared from the highest on.
lex_step :
    (h l h' l' : ℕ) (x : Bool)
    → l < 2 ^ 64
    → l' < 2 ^ 64
    → (ltb h h' || (h == h' && (ltb l l' || (l == l' && x))))
      ≡ (ltb (h * 2 ^ 64 + l) (h' * 2 ^ 64 + l') || (h * 2 ^ 64 + l == h' * 2 ^ 64 + l' && x))
lex_step h l h' l' x a b = ground arith

lex_end :
    (h l h' l' : ℕ)
    → l < 2 ^ 64
    → l' < 2 ^ 64
    → (ltb h h' || (h == h' && ltb l l')) ≡ ltb (h * 2 ^ 64 + l) (h' * 2 ^ 64 + l')
lex_end h l h' l' a b = ground arith

lex_end32 :
    (h l h' l' : ℕ)
    → l < 2 ^ 32
    → l' < 2 ^ 32
    → (ltb h h' || (h == h' && ltb l l')) ≡ ltb (h * 2 ^ 32 + l) (h' * 2 ^ 32 + l')
lex_end32 h l h' l' a b = ground arith

-- The same, from an index on.
load64be_at :
    (k i w : ℕ) (bytes : List ℕ)
    → k ≡ i + 8
    → k ≤ length bytes
    → AreBytes bytes
    → (load64be (drop i bytes) < 2 ^ 64)
      × (word_onto w (drop i bytes)
          ≡ word_onto (w * 2 ^ 64 + load64be (drop i bytes)) (drop k bytes))
load64be_at k i w bytes e room ok =
    let (small, takes) =
      word_onto-load64be w (drop i bytes) (omega (arith, length-drop i bytes))
        (AreBytes-drop i bytes ok) in
    (
      small,
      takes ∙ ap (word_onto (w * 2 ^ 64 + load64be (drop i bytes))) (sym (drop_sum k i 8 bytes e)),
    )

word_onto-end : (n w : ℕ) (bytes : List ℕ) → length bytes ≤ n → word_onto w (drop n bytes) ≡ w
unfolding word_onto
word_onto-end n w [] h = ap (word_onto w) (drop_nil n)
word_onto-end zero w (b ∷ bytes) h = absurd (omega arith)
word_onto-end (suc n) w (b ∷ bytes) h = word_onto-end n w bytes (omega arith)

-- The number of 32 bytes is that of its four digits, and the number of 20 bytes that of its three.
digits32 :
    (bytes : List ℕ)
    → length bytes ≡ 32
    → AreBytes bytes
    → (load64be (drop 8 bytes) < 2 ^ 64)
      × (load64be (drop 16 bytes) < 2 ^ 64)
      × (load64be (drop 24 bytes) < 2 ^ 64)
      × (word_of_bytes bytes
          ≡ ((load64be bytes * 2 ^ 64 + load64be (drop 8 bytes)) * 2 ^ 64
                + load64be (drop 16 bytes))
              * 2 ^ 64
            + load64be (drop 24 bytes))
unfolding word_of_bytes
digits32 bytes size ok =
    let (a, ea) = load64be_at 8 0 0 bytes refl (omega arith) ok in
    let (b, eb) = load64be_at 16 8 _ bytes refl (omega arith) ok in
    let (c, ec) = load64be_at 24 16 _ bytes refl (omega arith) ok in
    let (d, ed) = load64be_at 32 24 _ bytes refl (omega arith) ok in
    (b, c, d, ea ∙ eb ∙ ec ∙ ed ∙ word_onto-end 32 _ bytes (omega arith) ∙ omega arith)

digits20 :
    (bytes : List ℕ)
    → length bytes ≡ 20
    → AreBytes bytes
    → (load64be (drop 8 bytes) < 2 ^ 64)
      × (load32be (drop 16 bytes) < 2 ^ 32)
      × (word_of_bytes bytes
          ≡ (load64be bytes * 2 ^ 64 + load64be (drop 8 bytes)) * 2 ^ 32 + load32be (drop 16 bytes))
unfolding word_of_bytes
digits20 bytes size ok =
    let (a, ea) = load64be_at 8 0 0 bytes refl (omega arith) ok in
    let (b, eb) = load64be_at 16 8 _ bytes refl (omega arith) ok in
    let (c, ec) =
      word_onto-load32be ((0 * 2 ^ 64 + load64be bytes) * 2 ^ 64 + load64be (drop 8 bytes))
        (drop 16 bytes) (omega (arith, length-drop 16 bytes)) (AreBytes-drop 16 bytes ok) in
    (b, c, ea ∙ eb ∙ ec ∙ omega arith)

-- The comparison of two `bytes32` is that of the numbers that their bytes are in big endian order.
pub less_bytes32-ltb :
    (a b : List ℕ)
    → length a ≡ 32
    → length b ≡ 32
    → AreBytes a
    → AreBytes b
    → less_bytes32 a b ≡ ltb (word_of_bytes a) (word_of_bytes b)
unfolding less_bytes32
less_bytes32-ltb a b size_a size_b ok_a ok_b =
    let (a1, a2, a3, ea) = digits32 a size_a ok_a in
    let (b1, b2, b3, eb) = digits32 b size_b ok_b in
    lex_step (load64be a) (load64be (drop 8 a)) (load64be b) (load64be (drop 8 b)) _ a1 b1
    ∙ lex_step (load64be a * 2 ^ 64 + load64be (drop 8 a)) (load64be (drop 16 a))
        (load64be b * 2 ^ 64 + load64be (drop 8 b)) (load64be (drop 16 b)) _ a2 b2
    ∙ lex_end ((load64be a * 2 ^ 64 + load64be (drop 8 a)) * 2 ^ 64 + load64be (drop 16 a))
        (load64be (drop 24 a))
        ((load64be b * 2 ^ 64 + load64be (drop 8 b)) * 2 ^ 64 + load64be (drop 16 b))
        (load64be (drop 24 b)) a3 b3
    ∙ rw (ea, eb) refl

-- The comparison of two addresses is that of the numbers that their bytes are in big endian order.
pub less_address-ltb :
    (a b : List ℕ)
    → length a ≡ 20
    → length b ≡ 20
    → AreBytes a
    → AreBytes b
    → less_address a b ≡ ltb (word_of_bytes a) (word_of_bytes b)
unfolding less_address
less_address-ltb a b size_a size_b ok_a ok_b =
    let (a1, a2, ea) = digits20 a size_a ok_a in
    let (b1, b2, eb) = digits20 b size_b ok_b in
    lex_step (load64be a) (load64be (drop 8 a)) (load64be b) (load64be (drop 8 b)) _ a1 b1
    ∙ lex_end32 (load64be a * 2 ^ 64 + load64be (drop 8 a)) (load32be (drop 16 a))
        (load64be b * 2 ^ 64 + load64be (drop 8 b)) (load32be (drop 16 b)) a2 b2
    ∙ rw (ea, eb) refl
