-- ===== src/Tests/Instructions.antt =====
-- The instruction tables.
use Prim.Native.String.{String}
use evmc.Base.{ℕ, ◌^◌, ◌≤◌, ◌<◌, ◌≡◌, ◌≢◌, ◌↔◌, ◌⊎◌, refl, inr, Option, none, some, arith}
use evmc.Base.Int.{pos}
use evmc.Evmc.{Revision, revision_value}
use evmc.Instructions.Types.{InstructionMetrics, entry, cost_undefined}
use evmc.Instructions.Tables.{evmc_get_instruction_metrics_table, evmc_get_instruction_names_table}
use evmc.Instructions.Lookup.{instruction_metrics, instruction_name}
use evmc.Instructions.Consistency.{name-eq-none_iff, metrics_bounds}
use evmc.Instructions.Evolution.{instructions_kept, gas_cost_kept, repricings}
use evmc.Instructions.Opcodes.{Opcode, opcode_value, opcode_spelling}
use evmc.Instructions.Opcodes.Laws.{opcode-enumerated}
use evmc.Instructions.Families.{family, family_metrics}

sload : instruction_metrics Revision.berlin 0x54 ≡ some (entry 100 1 (pos 0))
unfolding instruction_metrics evmc_get_instruction_metrics_table
sload = refl

no_push0 : instruction_name Revision.paris 0x5f ≡ some none
unfolding instruction_name evmc_get_instruction_names_table
no_push0 = refl

paris_0x5f : instruction_metrics Revision.paris 0x5f ≡ some (entry cost_undefined 0 (pos 0))
unfolding instruction_metrics evmc_get_instruction_metrics_table
paris_0x5f = refl

difficulty : instruction_name Revision.frontier 0x44 ≡ some (some "DIFFICULTY")
unfolding instruction_name evmc_get_instruction_names_table
difficulty = refl

frontier_0x44 : instruction_metrics Revision.frontier 0x44 ≡ some (entry 2 0 (pos 1))
unfolding instruction_metrics evmc_get_instruction_metrics_table
frontier_0x44 = refl

frontier_0x54 : instruction_metrics Revision.frontier 0x54 ≡ some (entry 50 1 (pos 0))
unfolding instruction_metrics evmc_get_instruction_metrics_table
frontier_0x54 = refl

frontier_sload : instruction_name Revision.frontier 0x54 ≡ some (some "SLOAD")
unfolding instruction_name evmc_get_instruction_names_table
frontier_sload = refl

homestead_0x54 : instruction_metrics Revision.homestead 0x54 ≡ some (entry 50 1 (pos 0))
unfolding instruction_metrics evmc_get_instruction_metrics_table
homestead_0x54 = refl

name-eq-none_iff_example : (◌≡◌ {A = Option String} none none) ↔ (
    (entry cost_undefined 0 (pos 0) ≡ entry cost_undefined 0 (pos 0))
    × (◌≢◌ {A = ℕ} 0x5f 0x00)
    × (◌≢◌ {A = ℕ} 0x5f 0xfe))
name-eq-none_iff_example =
    name-eq-none_iff Revision.paris 0x5f (entry cost_undefined 0 (pos 0)) none paris_0x5f no_push0

metrics_bounds_example : (0 ≤ 1) × (0 ≤ 1) × (1 ≤ 17) × (100 < 2 ^ 15)
metrics_bounds_example = metrics_bounds Revision.berlin 0x54 (entry 100 1 (pos 0)) sload

instructions_kept_example :
    (b : String) × (m' : InstructionMetrics) × (instruction_name Revision.paris 0x44
      ≡ some (some b))
    × (instruction_metrics Revision.paris 0x44 ≡ some m')
    × ((b ≡ "DIFFICULTY")
        ⊎ ((◌≡◌ {A = ℕ} 0x44 0x44)
            × (◌≡◌ {A = String} "DIFFICULTY" "DIFFICULTY")
            × (b ≡ "PREVRANDAO")))
    × (m'.stack_height_required ≡ 0)
    × (m'.stack_height_change ≡ pos 1)
unfolding revision_value
instructions_kept_example =
    instructions_kept Revision.frontier Revision.paris 0x44 (entry 2 0 (pos 1)) "DIFFICULTY"
      (omega arith) (omega arith) frontier_0x44 difficulty

gas_cost_kept_example : ◌≡◌ {A = ℕ} 50 50
unfolding revision_value repricings
gas_cost_kept_example =
    gas_cost_kept Revision.frontier Revision.homestead 0x54 (entry 50 1 (pos 0))
      (entry 50 1 (pos 0)) "SLOAD" (omega arith) (omega arith) frontier_0x54 frontier_sload
      homestead_0x54 (inr refl)

family_metrics_example : instruction_metrics Revision.london 0x83 ≡ some (entry 3 4 (pos 1))
unfolding revision_value family
family_metrics_example = family_metrics Revision.london 0x83 (entry 3 4 (pos 1)) (omega arith) refl

opcode-enumerated_example :
    (o : Opcode) × (opcode_value o ≡ 0x44)
    × ((opcode_spelling o ≡ "DIFFICULTY")
        ⊎ ((◌≡◌ {A = ℕ} 0x44 0x44)
            × (◌≡◌ {A = String} "DIFFICULTY" "DIFFICULTY")
            × (opcode_spelling o ≡ "PREVRANDAO")))
opcode-enumerated_example =
    opcode-enumerated Revision.frontier 0x44 (entry 2 0 (pos 1)) "DIFFICULTY" frontier_0x44
      difficulty
