-- ===== src/Instructions/Consistency.antt =====
-- What the two tables of a revision say of one opcode, for every revision: the tests of
-- test/unittests/instructions_test.cpp and the comments of include/evmc/instructions.h, at all rows.
use Prim.Native.String.{String}
use evmc.Base.{
  ℕ, ◌^◌, ◌≡◌, ◌≢◌, ◌↔◌, ◌≤◌, ◌<◌, refl, true, not, ◌&&◌, Option, none, some, arith, ◌==◌, ltb, leb,
}
use evmc.Base.Int.{pos, pos_part, neg_part}
use evmc.Evmc.{Revision}
use evmc.Instructions.Types.{InstructionMetrics, entry, cost_undefined}
use evmc.Instructions.Tables.{evmc_get_instruction_metrics_table, evmc_get_instruction_names_table}
use evmc.Instructions.Lookup.{
  RowTest, instruction_metrics, instruction_name, revision_rows, all_revisions, row_holds,
  same_truth, is_null, eq_metrics,
}
use evmc.Instructions.Totality.{name_of_metrics}

abbrev undefined_test : RowTest
undefined_test op m n =
    same_truth (is_null n)
      (eq_metrics m (entry cost_undefined 0 (pos 0)) && not (op == 0x00) && not (op == 0xfe))

undefined_rows : all_revisions (revision_rows undefined_test) ≡ true
unfolding all_revisions revision_rows evmc_get_instruction_metrics_table
    evmc_get_instruction_names_table
undefined_rows = refl

-- In every revision an opcode has no name exactly when its metrics are those that mark an undefined
-- instruction and it is neither STOP (0x00) nor INVALID (0xfe), whose metrics are the same.
pub name-eq-none_iff :
    (r : Revision) (op : ℕ) (m : InstructionMetrics) (n : Option String)
    → instruction_metrics r op ≡ some m
    → instruction_name r op ≡ some n
    → (n ≡ none) ↔ ((m ≡ entry cost_undefined 0 (pos 0)) × (op ≢ 0x00) × (op ≢ 0xfe))
name-eq-none_iff r op m n hm hn =
    ground (arith, row_holds undefined_test undefined_rows r op m n hm hn)

-- `stack_height_required` items are there, so the height after the instruction is not negative.
abbrev stack_test : RowTest
stack_test op m n =
    leb (neg_part m.stack_height_change) m.stack_height_required
    && leb (pos_part m.stack_height_change) 1
    && leb m.stack_height_required 17
    && ltb m.gas_cost (2 ^ 15)

stack_rows : all_revisions (revision_rows stack_test) ≡ true
unfolding all_revisions revision_rows evmc_get_instruction_metrics_table
    evmc_get_instruction_names_table
stack_rows = refl

-- In every revision an instruction takes at most the items that it requires off the stack, adds at
-- most one, requires at most 17, and costs less than 2 ^ 15: the values fit int8_t and int16_t.
pub metrics_bounds :
    (r : Revision) (op : ℕ) (m : InstructionMetrics)
    → instruction_metrics r op ≡ some m
    → (neg_part m.stack_height_change ≤ m.stack_height_required)
      × (pos_part m.stack_height_change ≤ 1)
      × (m.stack_height_required ≤ 17)
      × (m.gas_cost < 2 ^ 15)
metrics_bounds r op m hm =
    let (n, hn) = name_of_metrics r op m hm in
    ground (arith, row_holds stack_test stack_rows r op m n hm hn)
