-- ===== src/Base/Words.antt =====
-- Big-endian words: the number that an array of bytes is, and the bytes of a number.
use Prim.Native.Nat.{ℕ, zero, suc, ◌+◌, ◌*◌, ◌/◌, ◌%◌, ◌^◌, ◌<◌}
use mathlib.Core.Path.{◌≡◌, refl}
use mathlib.Core.List.{List, [], ◌∷◌, ◌++◌}
use native.Mathlib.Omega.{arith}
use evmc.Base.Lists.{length, length-append}

unfoldable pub word_onto : ℕ → List ℕ → ℕ
word_onto w [] = w
word_onto w (b ∷ bs) = word_onto (w * 2 ^ 8 + b) bs

-- The number of an array, and the array of `n` bytes of a number.
unfoldable pub word_of_bytes : List ℕ → ℕ
unfolding word_onto
word_of_bytes bs = word_onto 0 bs

unfoldable pub bytes_of_word : ℕ → ℕ → List ℕ
bytes_of_word zero w = []
bytes_of_word (suc n) w = bytes_of_word n (w / 2 ^ 8) ++ (w % 2 ^ 8 ∷ [])

pub length-bytes_of_word : (n w : ℕ) → length (bytes_of_word n w) ≡ n
unfolding bytes_of_word
length-bytes_of_word zero w = refl
length-bytes_of_word (suc n) w = omega (
  arith,
  length-append (bytes_of_word n (w / 2 ^ 8)) (w % 2 ^ 8 ∷ []),
  length-bytes_of_word n (w / 2 ^ 8),
)

word_onto-append :
    (w : ℕ) (bs : List ℕ) (b : ℕ) → word_onto w (bs ++ (b ∷ [])) ≡ word_onto w bs * 2 ^ 8 + b
unfolding word_onto
word_onto-append w [] b = refl
word_onto-append w (c ∷ bs) b = word_onto-append (w * 2 ^ 8 + c) bs b

-- A number that fits is read back from its bytes.
pub word_of_bytes-bytes_of_word : (n w : ℕ) → w < 256 ^ n → word_of_bytes (bytes_of_word n w) ≡ w
unfolding word_of_bytes bytes_of_word
word_of_bytes-bytes_of_word zero w h = omega arith
word_of_bytes-bytes_of_word (suc n) w h =
    let power : 256 ^ suc n ≡ 256 ^ n * 256 = omega arith in
    omega (
      arith,
      word_onto-append 0 (bytes_of_word n (w / 2 ^ 8)) (w % 2 ^ 8),
      word_of_bytes-bytes_of_word n (w / 2 ^ 8) (omega (arith, power)),
    )
