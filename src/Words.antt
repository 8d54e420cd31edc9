-- ===== src/Words.antt =====
-- `address` and `bytes32` of include/evmc/evmc.hpp: the loads, the comparisons and the hash of their
-- arrays of bytes. A byte is a number below 256, and an array the list of its bytes.
pub mod Load
pub mod Order
pub mod Equal
use Prim.Native.Nat.{bit_or, bit_xor}
use evmc.Base.{
  ℕ, ◌+◌, ◌*◌, ◌/◌, ◌%◌, ◌^◌, Bool, true, false, not, ◌&&◌, ◌||◌, Option, none, some, List, [], ◌∷◌,
  drop, replicate, ◌++◌, get_elem?, ltb, ◌==◌,
}

-- `data[i]` of an array of which `i` is an index
abbrev pub byte_at : List ℕ → ℕ → ℕ
byte_at bytes i = elim (get_elem? bytes i) [ none ↦ 0 | some b ↦ b ]

-- `x << n` of a byte in a type that is wide enough for it
abbrev shifted : ℕ → ℕ → ℕ
shifted x n = x * 2 ^ n

abbrev or : ℕ → ℕ → ℕ
or a b = bit_or a b

unfoldable pub load64be : List ℕ → ℕ
load64be bytes =
    or
      (or
        (or
          (or
            (or
              (or (or (shifted (byte_at bytes 0) 56) (shifted (byte_at bytes 1) 48))
                (shifted (byte_at bytes 2) 40))
              (shifted (byte_at bytes 3) 32))
            (shifted (byte_at bytes 4) 24))
          (shifted (byte_at bytes 5) 16))
        (shifted (byte_at bytes 6) 8))
      (byte_at bytes 7)

unfoldable pub load64le : List ℕ → ℕ
load64le bytes =
    or
      (or
        (or
          (or
            (or
              (or (or (byte_at bytes 0) (shifted (byte_at bytes 1) 8))
                (shifted (byte_at bytes 2) 16))
              (shifted (byte_at bytes 3) 24))
            (shifted (byte_at bytes 4) 32))
          (shifted (byte_at bytes 5) 40))
        (shifted (byte_at bytes 6) 48))
      (shifted (byte_at bytes 7) 56)

unfoldable pub load32be : List ℕ → ℕ
load32be bytes =
    or
      (or (or (shifted (byte_at bytes 0) 24) (shifted (byte_at bytes 1) 16))
        (shifted (byte_at bytes 2) 8))
      (byte_at bytes 3)

unfoldable pub load32le : List ℕ → ℕ
load32le bytes =
    or (or (or (byte_at bytes 0) (shifted (byte_at bytes 1) 8)) (shifted (byte_at bytes 2) 16))
      (shifted (byte_at bytes 3) 24)

-- `operator==` and `operator<` of `address`
unfoldable pub equal_address : List ℕ → List ℕ → Bool
unfolding load64le load32le
equal_address a b =
    load64le a == load64le b
    && (load64le (drop 8 a) == load64le (drop 8 b) && load32le (drop 16 a) == load32le (drop 16 b))

unfoldable pub less_address : List ℕ → List ℕ → Bool
unfolding load64be load32be
less_address a b =
    ltb (load64be a) (load64be b)
    || (load64be a == load64be b
        && (ltb (load64be (drop 8 a)) (load64be (drop 8 b))
            || (load64be (drop 8 a) == load64be (drop 8 b)
                && ltb (load32be (drop 16 a)) (load32be (drop 16 b)))))

-- `operator==` and `operator<` of `bytes32`
unfoldable pub equal_bytes32 : List ℕ → List ℕ → Bool
unfolding load64le
equal_bytes32 a b =
    load64le a == load64le b
    && (load64le (drop 8 a) == load64le (drop 8 b)
        && (load64le (drop 16 a) == load64le (drop 16 b)
            && load64le (drop 24 a) == load64le (drop 24 b)))

unfoldable pub less_bytes32 : List ℕ → List ℕ → Bool
unfolding load64be
less_bytes32 a b =
    ltb (load64be a) (load64be b)
    || (load64be a == load64be b
        && (ltb (load64be (drop 8 a)) (load64be (drop 8 b))
            || (load64be (drop 8 a) == load64be (drop 8 b)
                && (ltb (load64be (drop 16 a)) (load64be (drop 16 b))
                    || (load64be (drop 16 a) == load64be (drop 16 b)
                        && ltb (load64be (drop 24 a)) (load64be (drop 24 b)))))))

-- The constructor of `bytes32` from a 64-bit number.
unfoldable pub bytes32_of : ℕ → List ℕ
bytes32_of v =
    replicate 24 0
    ++ (v / 2 ^ 56 % 2 ^ 8
        ∷ v / 2 ^ 48 % 2 ^ 8
        ∷ v / 2 ^ 40 % 2 ^ 8
        ∷ v / 2 ^ 32 % 2 ^ 8
        ∷ v / 2 ^ 24 % 2 ^ 8
        ∷ v / 2 ^ 16 % 2 ^ 8
        ∷ v / 2 ^ 8 % 2 ^ 8
        ∷ v % 2 ^ 8
        ∷ [])

abbrev pub prime : ℕ
prime = 0x100000001b3

abbrev pub offset_basis : ℕ
offset_basis = 0xcbf29ce484222325

unfoldable pub fnv1a_by64 : ℕ → ℕ → ℕ
fnv1a_by64 h x = bit_xor h x * prime % 2 ^ 64

unfoldable pub hash_address : List ℕ → ℕ
unfolding fnv1a_by64 load64le load32le
hash_address s =
    fnv1a_by64 (fnv1a_by64 (fnv1a_by64 offset_basis (load64le s)) (load64le (drop 8 s)))
      (load32le (drop 16 s))

unfoldable pub hash_bytes32 : List ℕ → ℕ
unfolding fnv1a_by64 load64le
hash_bytes32 s =
    fnv1a_by64
      (fnv1a_by64 (fnv1a_by64 (fnv1a_by64 offset_basis (load64le s)) (load64le (drop 8 s)))
        (load64le (drop 16 s)))
      (load64le (drop 24 s))
