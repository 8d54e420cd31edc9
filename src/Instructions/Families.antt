-- ===== src/Instructions/Families.antt =====
-- The instructions that come in families, PUSH1 to PUSH32, DUP1 to DUP16, SWAP1 to SWAP16 and LOG0
-- to LOG4 of include/evmc/instructions.h: what their opcodes say of their metrics.

use evmc.Base.{
  ℕ, suc, ◌+◌, ◌-◌, ◌*◌, ◌≡◌, ◌≤◌, ◌<◌, refl, ap, ◌∙◌, Bool, true, ◌&&◌, Option, none, some, arith,
  leb, if◌then◌else◌, ◌∙◌,
}
use evmc.Base.Int.{pos, minus}
use evmc.Evmc.{Revision, revision_value, max_revision}
use evmc.Instructions.Types.{InstructionMetrics, entry, cost_verylow}
use evmc.Instructions.Tables.{evmc_get_instruction_metrics_table, evmc_get_instruction_names_table}
use evmc.Instructions.Lookup.{
  RowTest, instruction_metrics, revision_rows, all_revisions, row_holds, eq_metrics,
}
use evmc.Instructions.Totality.{entries_total}

-- What a member of a family does: PUSHn adds an item, DUPn copies the n-th, SWAPn exchanges the top
-- with the one n below, and LOGn takes an offset, a size and n topics.
abbrev push_metrics : InstructionMetrics
push_metrics = entry cost_verylow 0 (pos 1)

abbrev dup_metrics : ℕ → InstructionMetrics
dup_metrics n = entry cost_verylow n (pos 1)

abbrev swap_metrics : ℕ → InstructionMetrics
swap_metrics n = entry cost_verylow (n + 1) (pos 0)

abbrev log_metrics : ℕ → InstructionMetrics
log_metrics n = entry ((n + 1) * 375) (n + 2) (minus (suc (suc n)))

abbrev within : ℕ → ℕ → ℕ → Bool
within lo hi op = leb lo op && leb op hi

-- The metrics that an opcode of a family has.
unfoldable pub family : ℕ → Option InstructionMetrics
family op =
    if within 0x60 0x7f op
    then some push_metrics
    else if within 0x80 0x8f op
    then some (dup_metrics (op - 0x7f))
    else if within 0x90 0x9f op
    then some (swap_metrics (op - 0x8f))
    else if within 0xa0 0xa4 op
    then some (log_metrics (op - 0xa0))
    else none

abbrev family_test : RowTest
family_test op m n = elim (family op) [ none ↦ true | some e ↦ eq_metrics m e ]

family_rows : all_revisions (revision_rows family_test) ≡ true
unfolding all_revisions revision_rows family evmc_get_instruction_metrics_table
    evmc_get_instruction_names_table
family_rows = refl

family-lt : (op : ℕ) (e : InstructionMetrics) → family op ≡ some e → op < 256
unfolding family
family-lt op e h = ground arith

eq_metrics→eq : (a b : InstructionMetrics) → eq_metrics a b ≡ true → a ≡ b
eq_metrics→eq a b h = ground arith

-- In every revision the opcodes 0x60 to 0x7f (PUSH1 to PUSH32) require nothing and add one item,
-- those of DUPn (0x7f + n, n from 1 to 16) require n items and add one, those of SWAPn (0x8f + n)
-- require n + 1 and keep the height, all at the cost 3; those of LOGn (0xa0 + n, n up to 4) require
-- n + 2 items, take them, and cost 375 * (n + 1).
pub family_metrics :
    (r : Revision) (op : ℕ) (e : InstructionMetrics)
    → revision_value r ≤ revision_value max_revision
    → family op ≡ some e
    → instruction_metrics r op ≡ some e
family_metrics r op e hr h =
    let (m, n, hm, hn) = entries_total r op hr (family-lt op e h) in
    hm
    ∙ ap some (eq_metrics→eq m e (ground (arith, row_holds family_test family_rows r op m n hm hn)))
