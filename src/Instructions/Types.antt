-- ===== src/Instructions/Types.antt =====
-- The entries of the instruction tables: `evmc_instruction_metrics` of
-- include/evmc/instructions.h, and the gas cost tiers of lib/instructions/instruction_metrics.c.
use evmc.Base.{ℕ}
use evmc.Base.Int.{ℤ}

-- The sizes of the C fields (int16_t, int8_t, int8_t) are bounds that the tables are shown to keep.
pub record InstructionMetrics : Type 0 where
  pub gas_cost : ℕ
  pub stack_height_required : ℕ
  pub stack_height_change : ℤ

-- One entry of a table, `{gas_cost, stack_height_required, stack_height_change}`.
abbrev pub entry : ℕ → ℕ → ℤ → InstructionMetrics
entry cost required change = record {
  gas_cost = cost;
  stack_height_required = required;
  stack_height_change = change;
}

abbrev pub cost_zero : ℕ
cost_zero = 0

abbrev pub cost_base : ℕ
cost_base = 2

abbrev pub cost_verylow : ℕ
cost_verylow = 3

abbrev pub cost_low : ℕ
cost_low = 5

abbrev pub cost_mid : ℕ
cost_mid = 8

abbrev pub cost_high : ℕ
cost_high = 10

-- The cost that marks an undefined instruction.
abbrev pub cost_undefined : ℕ
cost_undefined = cost_zero

abbrev pub warm_storage_read_cost : ℕ
warm_storage_read_cost = 100
