-- ===== src/Tests/Words.antt =====
-- Words of bytes: the comparisons on small numbers.
use evmc.Base.{ℕ, ◌*◌, ◌^◌, ◌%◌, ◌≡◌, ◌↔◌, refl, true, List, [], ◌∷◌, ◌++◌, replicate, ltb, arith}
use evmc.Base.Words.{word_of_bytes}
use evmc.Words.{less_bytes32, equal_bytes32, bytes32_of, hash_address}
use evmc.Words.Load.{AreBytes}
use evmc.Words.Order.{less_bytes32-ltb}
use evmc.Words.Equal.{equal_bytes32_iff}

abbrev address_of : ℕ → List ℕ
address_of last = replicate 19 0 ++ (last ∷ [])

abbrev word_of : ℕ → List ℕ
word_of last = replicate 31 0 ++ (last ∷ [])

word_of-AreBytes : AreBytes (word_of 7) × AreBytes (word_of 9)
word_of-AreBytes = omega arith

address_of-AreBytes : AreBytes (address_of 7) × AreBytes (address_of 9)
address_of-AreBytes = omega arith

bytes32_of_run : bytes32_of 9 ≡ word_of 9
unfolding bytes32_of
bytes32_of_run = refl

hash_run : hash_address (replicate 20 0) ≡ 0xcbf29ce484222325 * 0x100000001b3 ^ 3 % 2 ^ 64
unfolding hash_address
hash_run = refl

less_bytes32-ltb_example :
    less_bytes32 (word_of 7) (word_of 9)
    ≡ ltb (word_of_bytes (word_of 7)) (word_of_bytes (word_of 9))
less_bytes32-ltb_example =
    less_bytes32-ltb (word_of 7) (word_of 9) refl refl word_of-AreBytes.0 word_of-AreBytes.1

equal_bytes32_iff_example : (equal_bytes32 (word_of 7) (word_of 9) ≡ true) ↔ (word_of 7 ≡ word_of 9)
equal_bytes32_iff_example =
    equal_bytes32_iff (word_of 7) (word_of 9) refl refl word_of-AreBytes.0 word_of-AreBytes.1
