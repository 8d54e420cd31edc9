-- ===== src/Instructions/Totality.antt =====
-- Which opcodes and revisions have entries: the comments of the two functions in
-- include/evmc/instructions.h.
use Prim.Native.String.{String}
use evmc.Base.{
  ℕ, ◌≡◌, ◌≤◌, ◌<◌, refl, sym, ◌∙◌, Bool, true, ◌&&◌, Option, none, some, List, length, get_elem?,
  get_elem?_of_lt, lt_of_get_elem?, arith, ◌==◌, inl, inr, ◌⊎◌,
}
use evmc.Evmc.{Revision, revision_value, max_revision}
use evmc.Instructions.Types.{InstructionMetrics}
use evmc.Instructions.Tables.{evmc_get_instruction_metrics_table, evmc_get_instruction_names_table}
use evmc.Instructions.Lookup.{
  instruction_metrics, instruction_name, all_revisions, all_revisions_sound,
}

-- A null table, or one with a row for each byte.
abbrev sized {ℓ} : {A : Type ℓ} → Option (List A) → Bool
sized none = true
sized (some t) = length t == 256

abbrev both_sized : Revision → Bool
both_sized r =
    sized (evmc_get_instruction_metrics_table r) && sized (evmc_get_instruction_names_table r)

enumerators_sized : all_revisions both_sized ≡ true
unfolding all_revisions evmc_get_instruction_metrics_table evmc_get_instruction_names_table
enumerators_sized = refl

all_sized : (r : Revision) → both_sized r ≡ true
all_sized =
    all_revisions_sound both_sized enumerators_sized
      λ n. unfold evmc_get_instruction_metrics_table evmc_get_instruction_names_table in refl

tables_null :
    (r : Revision)
    → ((evmc_get_instruction_metrics_table r ≡ none)
        × (evmc_get_instruction_names_table r ≡ none)
        × (16 ≤ revision_value r))
      ⊎ ((ms : List InstructionMetrics) × (ns : List (Option String))
          × (evmc_get_instruction_metrics_table r ≡ some ms)
          × (evmc_get_instruction_names_table r ≡ some ns)
          × (revision_value r ≤ 15))
unfolding evmc_get_instruction_metrics_table evmc_get_instruction_names_table revision_value
tables_null (Revision.other n) = inl (refl, refl, omega arith)
tables_null _ = inr (_, _, refl, refl, omega arith)

module _ (r : Revision) (ms : List InstructionMetrics) (ns : List (Option String))
    (hm : evmc_get_instruction_metrics_table r ≡ some ms)
    (hn : evmc_get_instruction_names_table r ≡ some ns) where
  sizes : (length ms ≡ 256) × (length ns ≡ 256)
  sizes = ground (arith, all_sized r)

  metrics_of_table : (op : ℕ) → instruction_metrics r op ≡ get_elem? ms op
  unfolding instruction_metrics
  metrics_of_table op = rw (hm, instruction_metrics)

  name_of_table : (op : ℕ) → instruction_name r op ≡ get_elem? ns op
  unfolding instruction_name
  name_of_table op = rw (hn, instruction_name)

  entries :
      (op : ℕ)
      → op < 256
      → (m : InstructionMetrics) × (n : Option String) × (instruction_metrics r op ≡ some m)
        × (instruction_name r op ≡ some n)
  entries op h =
      let (sm, sn) = sizes in
      let (m, em) = get_elem?_of_lt ms op (omega arith) in
      let (n, en) = get_elem?_of_lt ns op (omega arith) in
      (m, n, metrics_of_table op ∙ em, name_of_table op ∙ en)

  lt_of_metrics : (op : ℕ) (m : InstructionMetrics) → instruction_metrics r op ≡ some m → op < 256
  lt_of_metrics op m h =
      omega (arith, lt_of_get_elem? ms op m (sym (metrics_of_table op) ∙ h), sizes.0)

-- For a revision up to EVMC_MAX_REVISION and a byte, both tables have an entry.
pub entries_total :
    (r : Revision) (op : ℕ)
    → revision_value r ≤ revision_value max_revision
    → op < 256
    → (m : InstructionMetrics) × (n : Option String) × (instruction_metrics r op ≡ some m)
      × (instruction_name r op ≡ some n)
unfolding revision_value
entries_total r op hr h = elim (tables_null r) [
  | inl (_, _, big) ↦ absurd (omega arith)
  | inr (ms, ns, hm, hn, _) ↦ entries r ms ns hm hn op h
]

-- An entry of the metrics shows that the revision is one of EVMC's and the opcode a byte.
pub range_of_metrics :
    (r : Revision) (op : ℕ) (m : InstructionMetrics)
    → instruction_metrics r op ≡ some m
    → (revision_value r ≤ revision_value max_revision) × (op < 256)
unfolding instruction_metrics revision_value
range_of_metrics r op m h = elim (tables_null r) [
  | inl (no_metrics, _, _) ↦ ground arith
  | inr (ms, ns, hm, hn, small) ↦ (small, lt_of_metrics r ms ns hm hn op m h)
]

-- Where an opcode has metrics, it has an entry in the table of names.
pub name_of_metrics :
    (r : Revision) (op : ℕ) (m : InstructionMetrics)
    → instruction_metrics r op ≡ some m
    → (n : Option String) × (instruction_name r op ≡ some n)
name_of_metrics r op m h =
    let (small, byte) = range_of_metrics r op m h in
    let (_, n, _, hn) = entries_total r op small byte in (n, hn)
