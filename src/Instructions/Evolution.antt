-- ===== src/Instructions/Evolution.antt =====
-- How the tables change from one revision to a later one: the hard forks that
-- test/unittests/instructions_test.cpp goes through, as one relation between any two revisions.
use Prim.Native.String.{String}
use text.Mathlib.Text.{◌==◌ as str_eq}
use text.Mathlib.TextEquality.{eq_iff}
use evmc.Base.{
  ℕ, ◌≡◌, ◌≤◌, ◌⊎◌, not, refl, ap, ◌∙◌, Bool, true, false, ◌&&◌, ◌||◌, Option, none, some, arith,
  ◌==◌, leb, ◌+◌, if◌then◌else◌,
}
use evmc.Base.Int.{eq_ℤ}
use evmc.Evmc.{Revision, revision_value, max_revision}
use evmc.Instructions.Types.{InstructionMetrics}
use evmc.Instructions.Tables.{evmc_get_instruction_metrics_table, evmc_get_instruction_names_table}
use evmc.Instructions.Lookup.{RowTest, instruction_metrics, instruction_name, all_pairs, pair_holds}
use evmc.Instructions.Totality.{entries_total, range_of_metrics}

-- The name is kept, but that 0x44 goes from DIFFICULTY to PREVRANDAO.
abbrev keeps_name : ℕ → String → Option String → Bool
keeps_name op a none = false
keeps_name op a (some b) =
    str_eq a b || (op == 0x44 && str_eq a "DIFFICULTY" && str_eq b "PREVRANDAO")

abbrev same_stack : InstructionMetrics → Option InstructionMetrics → Bool
same_stack a none = false
same_stack a (some b) =
    a.stack_height_required == b.stack_height_required
    && eq_ℤ a.stack_height_change b.stack_height_change

-- An opcode with a name in the row has it in the later revision too, with the same stack effect.
abbrev kept_test : Revision → RowTest
kept_test s op m none = true
kept_test s op m (some a) = elim (instruction_name s op) [
  | none ↦ false
  | some b ↦ keeps_name op a b && same_stack m (instruction_metrics s op)
]

kept_pairs : all_pairs (λ r s. kept_test s) ≡ true
unfolding all_pairs revision_value instruction_name instruction_metrics
    evmc_get_instruction_metrics_table evmc_get_instruction_names_table
kept_pairs = refl

-- The row of the later revision, and what the test says of it.
names_agree :
    (op : ℕ) (a b : String)
    → keeps_name op a (some b) ≡ true
    → (b ≡ a) ⊎ ((op ≡ 0x44) × (a ≡ "DIFFICULTY") × (b ≡ "PREVRANDAO"))
names_agree op a b h = ground (arith, eq_iff a b, eq_iff a "DIFFICULTY", eq_iff b "PREVRANDAO")

kept_entry :
    (s : Revision) (op : ℕ) (m m' : InstructionMetrics) (a : String) (n : Option String)
    → kept_test s op m (some a) ≡ true
    → instruction_metrics s op ≡ some m'
    → instruction_name s op ≡ some n
    → (b : String) × (n ≡ some b)
      × (keeps_name op a (some b) ≡ true)
      × (same_stack m (some m') ≡ true)
kept_entry s op m m' a none h hm hn = ground arith
kept_entry s op m m' a (some b) h hm hn = (b, refl, ground arith, ground arith)

-- An instruction that a revision defines is defined in every later revision up to
-- EVMC_MAX_REVISION: with the same stack effect, and with the same name unless it is 0x44,
-- which DIFFICULTY names first and PREVRANDAO later.
pub instructions_kept :
    (r s : Revision) (op : ℕ) (m : InstructionMetrics) (a : String)
    → revision_value r ≤ revision_value s
    → revision_value s ≤ revision_value max_revision
    → instruction_metrics r op ≡ some m
    → instruction_name r op ≡ some (some a)
    → (b : String) × (m' : InstructionMetrics) × (instruction_name s op ≡ some (some b))
      × (instruction_metrics s op ≡ some m')
      × ((b ≡ a) ⊎ ((op ≡ 0x44) × (a ≡ "DIFFICULTY") × (b ≡ "PREVRANDAO")))
      × (m'.stack_height_required ≡ m.stack_height_required)
      × (m'.stack_height_change ≡ m.stack_height_change)
instructions_kept r s op m a rs small hm hn =
    let (_, byte) = range_of_metrics r op m hm in
    let (m', n, hm', hn') = entries_total s op small byte in
    let (b, e, named, stack) =
      kept_entry s op m m' a n
        (pair_holds (λ r s. kept_test s) kept_pairs r s op m (some a) rs small hm hn) hm' hn' in
    (b, m', hn' ∙ ap some e, hm', names_agree op a b named, ground arith, ground arith)

-- The opcodes that read or change accounts and storage, whose costs were changed.
unfoldable pub is_state_access : ℕ → Bool
is_state_access op =
    op == 0x31
    || op == 0x3b
    || op == 0x3c
    || op == 0x3f
    || op == 0x54
    || op == 0xf1
    || op == 0xf2
    || op == 0xf4
    || op == 0xfa
    || op == 0xff

-- The number of repricings (Tangerine Whistle, Istanbul, Berlin) up to a revision.
unfoldable pub repricings : Revision → ℕ
unfolding revision_value
repricings r =
    let v = revision_value r in
    (if leb 2 v then 1 else 0) + (if leb 7 v then 1 else 0) + (if leb 8 v then 1 else 0)

abbrev same_cost : InstructionMetrics → Option InstructionMetrics → Bool
same_cost a none = false
same_cost a (some b) = a.gas_cost == b.gas_cost

abbrev cost_test : Revision → Revision → RowTest
cost_test r s op m none = true
cost_test r s op m (some a) =
    (is_state_access op && not (repricings r == repricings s))
    || same_cost m (instruction_metrics s op)

cost_pairs : all_pairs cost_test ≡ true
unfolding all_pairs repricings is_state_access instruction_metrics
    evmc_get_instruction_metrics_table evmc_get_instruction_names_table
cost_pairs = refl

-- An instruction that a revision defines keeps its cost in a later revision, if it is none of the
-- ten that access state, or if no repricing lies between the two revisions.
pub gas_cost_kept :
    (r s : Revision) (op : ℕ) (m m' : InstructionMetrics) (a : String)
    → revision_value r ≤ revision_value s
    → revision_value s ≤ revision_value max_revision
    → instruction_metrics r op ≡ some m
    → instruction_name r op ≡ some (some a)
    → instruction_metrics s op ≡ some m'
    → (is_state_access op ≡ false) ⊎ (repricings r ≡ repricings s)
    → m'.gas_cost ≡ m.gas_cost
gas_cost_kept r s op m m' a rs small hm hn hm' same =
    ground (arith, pair_holds cost_test cost_pairs r s op m (some a) rs small hm hn)
