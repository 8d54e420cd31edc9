-- ===== src/Instructions/Metrics/Cancun.antt =====
-- `cancun_metrics` of lib/instructions/instruction_metrics.c.
use evmc.Base.{◌*◌, List, [], ◌∷◌}
use evmc.Base.Int.{pos, minus}
use evmc.Instructions.Types.{
  InstructionMetrics, entry, cost_zero, cost_base, cost_verylow, cost_low, cost_mid, cost_high,
  cost_undefined, warm_storage_read_cost,
}

unfoldable pub cancun_metrics : List InstructionMetrics
cancun_metrics =
    entry cost_zero 0 (pos 0)
    ∷ entry cost_verylow 2 (minus 1)
    ∷ entry cost_low 2 (minus 1)
    ∷ entry cost_verylow 2 (minus 1)
    ∷ entry cost_low 2 (minus 1)
    ∷ entry cost_low 2 (minus 1)
    ∷ entry cost_low 2 (minus 1)
    ∷ entry cost_low 2 (minus 1)
    ∷ entry cost_mid 3 (minus 2)
    ∷ entry cost_mid 3 (minus 2)
    ∷ entry cost_high 2 (minus 1)
    ∷ entry cost_low 2 (minus 1)
    ∷ entry cost_undefined 0 (pos 0)
    ∷ entry cost_undefined 0 (pos 0)
    ∷ entry cost_undefined 0 (pos 0)
    ∷ entry cost_undefined 0 (pos 0)
    ∷ entry cost_verylow 2 (minus 1)
    ∷ entry cost_verylow 2 (minus 1)
    ∷ entry cost_verylow 2 (minus 1)
    ∷ entry cost_verylow 2 (minus 1)
    ∷ entry cost_verylow 2 (minus 1)
    ∷ entry cost_verylow 1 (pos 0)
    ∷ entry cost_verylow 2 (minus 1)
    ∷ entry cost_verylow 2 (minus 1)
    ∷ entry cost_verylow 2 (minus 1)
    ∷ entry cost_verylow 1 (pos 0)
    ∷ entry cost_verylow 2 (minus 1)
    ∷ entry cost_verylow 2 (minus 1)
    ∷ entry cost_verylow 2 (minus 1)
    ∷ entry cost_verylow 2 (minus 1)
    ∷ entry cost_undefined 0 (pos 0)
    ∷ entry cost_undefined 0 (pos 0)
    ∷ entry 30 2 (minus 1)
    ∷ entry cost_undefined 0 (pos 0)
    ∷ entry cost_undefined 0 (pos 0)
    ∷ entry cost_undefined 0 (pos 0)
    ∷ entry cost_undefined 0 (pos 0)
    ∷ entry cost_undefined 0 (pos 0)
    ∷ entry cost_undefined 0 (pos 0)
    ∷ entry cost_undefined 0 (pos 0)
    ∷ entry cost_undefined 0 (pos 0)
    ∷ entry cost_undefined 0 (pos 0)
    ∷ entry cost_undefined 0 (pos 0)
    ∷ entry cost_undefined 0 (pos 0)
    ∷ entry cost_undefined 0 (pos 0)
    ∷ entry cost_undefined 0 (pos 0)
    ∷ entry cost_undefined 0 (pos 0)
    ∷ entry cost_undefined 0 (pos 0)
    ∷ entry cost_base 0 (pos 1)
    ∷ entry warm_storage_read_cost 1 (pos 0)
    ∷ entry cost_base 0 (pos 1)
    ∷ entry cost_base 0 (pos 1)
    ∷ entry cost_base 0 (pos 1)
    ∷ entry cost_verylow 1 (pos 0)
    ∷ entry cost_base 0 (pos 1)
    ∷ entry cost_verylow 3 (minus 3)
    ∷ entry cost_base 0 (pos 1)
    ∷ entry cost_verylow 3 (minus 3)
    ∷ entry cost_base 0 (pos 1)
    ∷ entry warm_storage_read_cost 1 (pos 0)
    ∷ entry warm_storage_read_cost 4 (minus 4)
    ∷ entry cost_base 0 (pos 1)
    ∷ entry cost_verylow 3 (minus 3)
    ∷ entry warm_storage_read_cost 1 (pos 0)
    ∷ entry 20 1 (pos 0)
    ∷ entry cost_base 0 (pos 1)
    ∷ entry cost_base 0 (pos 1)
    ∷ entry cost_base 0 (pos 1)
    ∷ entry cost_base 0 (pos 1)
    ∷ entry cost_base 0 (pos 1)
    ∷ entry cost_base 0 (pos 1)
    ∷ entry cost_low 0 (pos 1)
    ∷ entry cost_base 0 (pos 1)
    ∷ entry cost_undefined 0 (pos 0)
    ∷ entry cost_undefined 0 (pos 0)
    ∷ entry cost_undefined 0 (pos 0)
    ∷ entry cost_undefined 0 (pos 0)
    ∷ entry cost_undefined 0 (pos 0)
    ∷ entry cost_undefined 0 (pos 0)
    ∷ entry cost_undefined 0 (pos 0)
    ∷ entry cost_base 1 (minus 1)
    ∷ entry cost_verylow 1 (pos 0)
    ∷ entry cost_verylow 2 (minus 2)
    ∷ entry cost_verylow 2 (minus 2)
    ∷ entry warm_storage_read_cost 1 (pos 0)
    ∷ entry 0 2 (minus 2)
    ∷ entry cost_mid 1 (minus 1)
    ∷ entry cost_high 2 (minus 2)
    ∷ entry cost_base 0 (pos 1)
    ∷ entry cost_base 0 (pos 1)
    ∷ entry cost_base 0 (pos 1)
    ∷ entry 1 0 (pos 0)
    ∷ entry cost_undefined 0 (pos 0)
    ∷ entry cost_undefined 0 (pos 0)
    ∷ entry cost_undefined 0 (pos 0)
    ∷ entry cost_base 0 (pos 1)
    ∷ entry cost_verylow 0 (pos 1)
    ∷ entry cost_verylow 0 (pos 1)
    ∷ entry cost_verylow 0 (pos 1)
    ∷ entry cost_verylow 0 (pos 1)
    ∷ entry cost_verylow 0 (pos 1)
    ∷ entry cost_verylow 0 (pos 1)
    ∷ entry cost_verylow 0 (pos 1)
    ∷ entry cost_verylow 0 (pos 1)
    ∷ entry cost_verylow 0 (pos 1)
    ∷ entry cost_verylow 0 (pos 1)
    ∷ entry cost_verylow 0 (pos 1)
    ∷ entry cost_verylow 0 (pos 1)
    ∷ entry cost_verylow 0 (pos 1)
    ∷ entry cost_verylow 0 (pos 1)
    ∷ entry cost_verylow 0 (pos 1)
    ∷ entry cost_verylow 0 (pos 1)
    ∷ entry cost_verylow 0 (pos 1)
    ∷ entry cost_verylow 0 (pos 1)
    ∷ entry cost_verylow 0 (pos 1)
    ∷ entry cost_verylow 0 (pos 1)
    ∷ entry cost_verylow 0 (pos 1)
    ∷ entry cost_verylow 0 (pos 1)
    ∷ entry cost_verylow 0 (pos 1)
    ∷ entry cost_verylow 0 (pos 1)
    ∷ entry cost_verylow 0 (pos 1)
    ∷ entry cost_verylow 0 (pos 1)
    ∷ entry cost_verylow 0 (pos 1)
    ∷ entry cost_verylow 0 (pos 1)
    ∷ entry cost_verylow 0 (pos 1)
    ∷ entry cost_verylow 0 (pos 1)
    ∷ entry cost_verylow 0 (pos 1)
    ∷ entry cost_verylow 0 (pos 1)
    ∷ entry cost_verylow 1 (pos 1)
    ∷ entry cost_verylow 2 (pos 1)
    ∷ entry cost_verylow 3 (pos 1)
    ∷ entry cost_verylow 4 (pos 1)
    ∷ entry cost_verylow 5 (pos 1)
    ∷ entry cost_verylow 6 (pos 1)
    ∷ entry cost_verylow 7 (pos 1)
    ∷ entry cost_verylow 8 (pos 1)
    ∷ entry cost_verylow 9 (pos 1)
    ∷ entry cost_verylow 10 (pos 1)
    ∷ entry cost_verylow 11 (pos 1)
    ∷ entry cost_verylow 12 (pos 1)
    ∷ entry cost_verylow 13 (pos 1)
    ∷ entry cost_verylow 14 (pos 1)
    ∷ entry cost_verylow 15 (pos 1)
    ∷ entry cost_verylow 16 (pos 1)
    ∷ entry cost_verylow 2 (pos 0)
    ∷ entry cost_verylow 3 (pos 0)
    ∷ entry cost_verylow 4 (pos 0)
    ∷ entry cost_verylow 5 (pos 0)
    ∷ entry cost_verylow 6 (pos 0)
    ∷ entry cost_verylow 7 (pos 0)
    ∷ entry cost_verylow 8 (pos 0)
    ∷ entry cost_verylow 9 (pos 0)
    ∷ entry cost_verylow 10 (pos 0)
    ∷ entry cost_verylow 11 (pos 0)
    ∷ entry cost_verylow 12 (pos 0)
    ∷ entry cost_verylow 13 (pos 0)
    ∷ entry cost_verylow 14 (pos 0)
    ∷ entry cost_verylow 15 (pos 0)
    ∷ entry cost_verylow 16 (pos 0)
    ∷ entry cost_verylow 17 (pos 0)
    ∷ entry (1 * 375) 2 (minus 2)
    ∷ entry (2 * 375) 3 (minus 3)
    ∷ entry (3 * 375) 4 (minus 4)
    ∷ entry (4 * 375) 5 (minus 5)
    ∷ entry (5 * 375) 6 (minus 6)
    ∷ entry cost_undefined 0 (pos 0)
    ∷ entry cost_undefined 0 (pos 0)
    ∷ entry cost_undefined 0 (pos 0)
    ∷ entry cost_undefined 0 (pos 0)
    ∷ entry cost_undefined 0 (pos 0)
    ∷ entry cost_undefined 0 (pos 0)
    ∷ entry cost_undefined 0 (pos 0)
    ∷ entry cost_undefined 0 (pos 0)
    ∷ entry cost_undefined 0 (pos 0)
    ∷ entry cost_undefined 0 (pos 0)
    ∷ entry cost_undefined 0 (pos 0)
    ∷ entry cost_undefined 0 (pos 0)
    ∷ entry cost_undefined 0 (pos 0)
    ∷ entry cost_undefined 0 (pos 0)
    ∷ entry cost_undefined 0 (pos 0)
    ∷ entry cost_undefined 0 (pos 0)
    ∷ entry cost_undefined 0 (pos 0)
    ∷ entry cost_undefined 0 (pos 0)
    ∷ entry cost_undefined 0 (pos 0)
    ∷ entry cost_undefined 0 (pos 0)
    ∷ entry cost_undefined 0 (pos 0)
    ∷ entry cost_undefined 0 (pos 0)
    ∷ entry cost_undefined 0 (pos 0)
    ∷ entry cost_undefined 0 (pos 0)
    ∷ entry cost_undefined 0 (pos 0)
    ∷ entry cost_undefined 0 (pos 0)
    ∷ entry cost_undefined 0 (pos 0)
    ∷ entry cost_undefined 0 (pos 0)
    ∷ entry cost_undefined 0 (pos 0)
    ∷ entry cost_undefined 0 (pos 0)
    ∷ entry cost_undefined 0 (pos 0)
    ∷ entry cost_undefined 0 (pos 0)
    ∷ entry cost_undefined 0 (pos 0)
    ∷ entry cost_undefined 0 (pos 0)
    ∷ entry cost_undefined 0 (pos 0)
    ∷ entry cost_undefined 0 (pos 0)
    ∷ entry cost_undefined 0 (pos 0)
    ∷ entry cost_undefined 0 (pos 0)
    ∷ entry cost_undefined 0 (pos 0)
    ∷ entry cost_undefined 0 (pos 0)
    ∷ entry cost_undefined 0 (pos 0)
    ∷ entry cost_undefined 0 (pos 0)
    ∷ entry cost_undefined 0 (pos 0)
    ∷ entry cost_undefined 0 (pos 0)
    ∷ entry cost_undefined 0 (pos 0)
    ∷ entry cost_undefined 0 (pos 0)
    ∷ entry cost_undefined 0 (pos 0)
    ∷ entry cost_undefined 0 (pos 0)
    ∷ entry cost_undefined 0 (pos 0)
    ∷ entry cost_undefined 0 (pos 0)
    ∷ entry cost_undefined 0 (pos 0)
    ∷ entry cost_undefined 0 (pos 0)
    ∷ entry cost_undefined 0 (pos 0)
    ∷ entry cost_undefined 0 (pos 0)
    ∷ entry cost_undefined 0 (pos 0)
    ∷ entry cost_undefined 0 (pos 0)
    ∷ entry cost_undefined 0 (pos 0)
    ∷ entry cost_undefined 0 (pos 0)
    ∷ entry cost_undefined 0 (pos 0)
    ∷ entry cost_undefined 0 (pos 0)
    ∷ entry cost_undefined 0 (pos 0)
    ∷ entry cost_undefined 0 (pos 0)
    ∷ entry cost_undefined 0 (pos 0)
    ∷ entry cost_undefined 0 (pos 0)
    ∷ entry cost_undefined 0 (pos 0)
    ∷ entry cost_undefined 0 (pos 0)
    ∷ entry cost_undefined 0 (pos 0)
    ∷ entry cost_undefined 0 (pos 0)
    ∷ entry cost_undefined 0 (pos 0)
    ∷ entry cost_undefined 0 (pos 0)
    ∷ entry cost_undefined 0 (pos 0)
    ∷ entry cost_undefined 0 (pos 0)
    ∷ entry cost_undefined 0 (pos 0)
    ∷ entry cost_undefined 0 (pos 0)
    ∷ entry cost_undefined 0 (pos 0)
    ∷ entry 32000 3 (minus 2)
    ∷ entry warm_storage_read_cost 7 (minus 6)
    ∷ entry warm_storage_read_cost 7 (minus 6)
    ∷ entry cost_zero 2 (minus 2)
    ∷ entry warm_storage_read_cost 6 (minus 5)
    ∷ entry 32000 4 (minus 3)
    ∷ entry cost_undefined 0 (pos 0)
    ∷ entry cost_undefined 0 (pos 0)
    ∷ entry cost_undefined 0 (pos 0)
    ∷ entry cost_undefined 0 (pos 0)
    ∷ entry warm_storage_read_cost 6 (minus 5)
    ∷ entry cost_undefined 0 (pos 0)
    ∷ entry cost_undefined 0 (pos 0)
    ∷ entry cost_zero 2 (minus 2)
    ∷ entry cost_zero 0 (pos 0)
    ∷ entry 5000 1 (minus 1)
    ∷ []
