-- ===== src/Bytes/Laws.antt =====
-- `move` copies what the range held before, whether the ranges overlap or not.
use evmc.Base.{
  ℕ, zero, suc, ◌+◌, ◌-◌, ◌≤◌, ◌<◌, ◌≡◌, refl, sym, ap, ◌∙◌, Bool, ◌&&◌, List, [], ◌∷◌, length, ltb,
  leb, ◌==◌, if◌then◌else◌, arith, Bool-cases, inl, inr,
}
use evmc.Bytes.{read, write, copy_n, copy_backward, move}

read-write :
    (i j value : ℕ) (memory : List ℕ)
    → i < length memory
    → read (write i value memory) j ≡ (if i == j then value else read memory j)
unfolding write
read-write i j value [] h = absurd (omega arith)
read-write zero zero value (b ∷ memory) h = refl
read-write zero (suc j) value (b ∷ memory) h = ground arith
read-write (suc i) zero value (b ∷ memory) h = ground arith
read-write (suc i) (suc j) value (b ∷ memory) h =
    read-write i j value memory (omega arith) ∙ ground arith

length-write : (i value : ℕ) (memory : List ℕ) → length (write i value memory) ≡ length memory
unfolding write
length-write i value [] = refl
length-write zero value (b ∷ memory) = refl
length-write (suc i) value (b ∷ memory) = ap suc (length-write i value memory)

-- An index within the range from `dest` on.
abbrev pub in_range : ℕ → ℕ → ℕ → Bool
in_range dest count j = leb dest j && ltb j (dest + count)

abbrev pub moved : ℕ → ℕ → ℕ → List ℕ → ℕ → ℕ
moved dest src count memory j =
    if in_range dest count j then read memory (src + (j - dest)) else read memory j

copy_n-moved :
    (src count dest j : ℕ) (memory : List ℕ)
    → dest ≤ src
    → dest + count ≤ length memory
    → read (copy_n src count dest memory) j ≡ moved dest src count memory j
unfolding copy_n
copy_n-moved src zero dest j memory below room = ground arith
copy_n-moved src (suc count) dest j memory below room =
    let m = write dest (read memory src) memory in
    copy_n-moved (suc src) count (suc dest) j m (omega arith)
      (omega (arith, length-write dest (read memory src) memory))
    ∙ elim (Bool-cases (leb (suc dest) j)) [
      | inl later ↦
          let place : suc src + (j - suc dest) ≡ src + (j - dest) = ground arith in
          let kept : read m (suc src + (j - suc dest)) ≡ read memory (src + (j - dest)) =
            ap (read m) place
            ∙ read-write dest (src + (j - dest)) (read memory src) memory (omega arith)
            ∙ ground arith in
          let still : read m j ≡ read memory j =
            read-write dest j (read memory src) memory (omega arith) ∙ ground arith in
          ground (arith, kept, still)
      | inr first ↦
          let here = read-write dest j (read memory src) memory (omega arith) in
          elim (Bool-cases (dest == j)) [
            | inl same ↦
                let place : src + (j - dest) ≡ src = ground arith in
                let taken : read memory (src + (j - dest)) ≡ read memory src =
                  ap (read memory) place in
                ground (arith, here, taken)
            | inr other ↦ ground (arith, here)
          ]
    ]

copy_backward-moved :
    (src count dest j : ℕ) (memory : List ℕ)
    → src ≤ dest
    → dest + count ≤ length memory
    → read (copy_backward src count dest memory) j ≡ moved dest src count memory j
unfolding copy_backward
copy_backward-moved src zero dest j memory below room = ground arith
copy_backward-moved src (suc count) dest j memory below room =
    let i = dest + count in
    let m = write i (read memory (src + count)) memory in
    copy_backward-moved src count dest j m (omega arith)
      (omega (arith, length-write i (read memory (src + count)) memory))
    ∙ elim (Bool-cases (in_range dest count j)) [
      | inl inside ↦
          let kept : read m (src + (j - dest)) ≡ read memory (src + (j - dest)) =
            read-write i (src + (j - dest)) (read memory (src + count)) memory (omega arith)
            ∙ ground arith in
          ground (arith, kept)
      | inr outside ↦
          let here = read-write i j (read memory (src + count)) memory (omega arith) in
          elim (Bool-cases (i == j)) [
            | inl same ↦
                let place : src + (j - dest) ≡ src + count = ground arith in
                let taken : read memory (src + (j - dest)) ≡ read memory (src + count) =
                  ap (read memory) place in
                ground (arith, here, taken)
            | inr other ↦ ground (arith, here)
          ]
    ]

-- For two ranges of `count` bytes within the memory, which may overlap: after `move` each byte from
-- `dest` on is the one that the range from `src` on held before, and every other byte is as before.
pub move-moved :
    (dest src count j : ℕ) (memory : List ℕ)
    → dest + count ≤ length memory
    → src + count ≤ length memory
    → read (move dest src count memory) j ≡ moved dest src count memory j
unfolding move
move-moved dest src count j memory room fits = elim (Bool-cases (ltb dest src)) [
  | inl before ↦ rw before (copy_n-moved src count dest j memory (ground arith) room)
  | inr not_before ↦ elim (Bool-cases (ltb src dest)) [
    | inl behind ↦
        rw (not_before, behind) (copy_backward-moved src count dest j memory (ground arith) room)
    | inr same ↦
        rw (not_before, same)
          (elim (Bool-cases (in_range dest count j)) [
            | inl inside ↦
                let place : src + (j - dest) ≡ j = ground arith in
                rw inside (ap (read memory) (sym place))
            | inr outside ↦ rw outside refl
          ])
  ]
]
