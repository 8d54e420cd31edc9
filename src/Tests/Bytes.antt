-- ===== src/Tests/Bytes.antt =====
-- Ranges of bytes that overlap.
use evmc.Base.{ℕ, ◌≡◌, refl, some, List, [], ◌∷◌, arith}
use evmc.Base.Int.{negsuc}
use evmc.Bytes.{read, move, compare, find}
use evmc.Bytes.Laws.{moved, move-moved}

abbrev five_bytes : List ℕ
five_bytes = 10 ∷ 11 ∷ 12 ∷ 13 ∷ 14 ∷ []

move_up : move 1 0 3 five_bytes ≡ 10 ∷ 10 ∷ 11 ∷ 12 ∷ 14 ∷ []
unfolding move
move_up = refl

compare_five : compare five_bytes (10 ∷ 12 ∷ 0 ∷ 0 ∷ 0 ∷ []) ≡ negsuc 0
unfolding compare
compare_five = refl

find_twelve : find five_bytes 12 ≡ some 2
unfolding find
find_twelve = refl

move-moved_example : read (move 1 0 3 five_bytes) 2 ≡ moved 1 0 3 five_bytes 2
move-moved_example = move-moved 1 0 3 2 five_bytes (omega arith) (omega arith)
