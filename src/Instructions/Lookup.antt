-- ===== src/Instructions/Lookup.antt =====
-- The entry of an opcode in the tables of a revision, and checks of whole tables by evaluation.
use Prim.Native.String.{String}
use evmc.Base.{
  ℕ, zero, suc, ◌+◌, ◌≡◌, ◌≤◌, Bool, true, false, ◌&&◌, not, ◌==◌, refl, Option, none, some, List,
  [], ◌∷◌, arith, get_elem?, leb, if◌then◌else◌, Option-cases, inl, inr,
}
use evmc.Base.Int.{eq_ℤ}
use evmc.Evmc.{Revision, revision_value, max_revision}
use evmc.Instructions.Types.{InstructionMetrics}
use evmc.Instructions.Tables.{evmc_get_instruction_metrics_table, evmc_get_instruction_names_table}

-- `evmc_get_instruction_metrics_table(r)[op]`; `none` for a null table or an index out of range.
unfoldable pub instruction_metrics : Revision → ℕ → Option InstructionMetrics
instruction_metrics r op = elim (evmc_get_instruction_metrics_table r) [
  | none ↦ none
  | some table ↦ get_elem? table op
]

-- `evmc_get_instruction_names_table(r)[op]`; the inner `none` is a null name.
unfoldable pub instruction_name : Revision → ℕ → Option (Option String)
instruction_name r op = elim (evmc_get_instruction_names_table r) [
  | none ↦ none
  | some table ↦ get_elem? table op
]

-- What is asked of an opcode, its metrics and its name.
abbrev pub RowTest : Type 0
RowTest = ℕ → InstructionMetrics → Option String → Bool

pub all_rows : RowTest → ℕ → List InstructionMetrics → List (Option String) → Bool
all_rows p op (m ∷ ms) (n ∷ ns) = p op m n && all_rows p (suc op) ms ns
all_rows p op [] [] = true
all_rows p op _ _ = false

-- The rows of a revision pass the test; there is nothing to test without tables.
unfoldable pub revision_rows : RowTest → Revision → Bool
unfolding all_rows
revision_rows p r = elim (evmc_get_instruction_metrics_table r) [
  | none ↦ true
  | some ms ↦ elim (evmc_get_instruction_names_table r) [
    | none ↦ true
    | some ns ↦ all_rows p 0 ms ns
  ]
]

all_rows_sound :
    (p : RowTest) (op k : ℕ) (ms : List InstructionMetrics) (ns : List (Option String))
    (m : InstructionMetrics) (n : Option String)
    → all_rows p op ms ns ≡ true
    → get_elem? ms k ≡ some m
    → get_elem? ns k ≡ some n
    → p (op + k) m n ≡ true
unfolding all_rows
all_rows_sound p op zero (a ∷ ms) (b ∷ ns) m n h hm hn = ground arith
all_rows_sound p op (suc k) (a ∷ ms) (b ∷ ns) m n h hm hn =
    ground (arith, all_rows_sound p (suc op) k ms ns m n)
all_rows_sound p op k [] ns m n h hm hn = cc
all_rows_sound p op k (a ∷ ms) [] m n h hm hn = cc

-- A test that the rows of a revision pass holds at each entry of its tables.
pub revision_rows_sound :
    (p : RowTest) (r : Revision) (op : ℕ) (m : InstructionMetrics) (n : Option String)
    → revision_rows p r ≡ true
    → instruction_metrics r op ≡ some m
    → instruction_name r op ≡ some n
    → p op m n ≡ true
unfolding revision_rows instruction_metrics instruction_name
revision_rows_sound p r op m n h hm hn =
    elim (Option-cases (evmc_get_instruction_metrics_table r)) [
      | inl e ↦ ground arith
      | inr (ms, em) ↦ elim (Option-cases (evmc_get_instruction_names_table r)) [
        | inl e ↦ ground arith
        | inr (ns, en) ↦ ground (arith, all_rows_sound p 0 op ms ns m n)
      ]
    ]

-- A test of revisions, tried at every enumerator.
unfoldable pub all_revisions : (Revision → Bool) → Bool
all_revisions p =
    p Revision.frontier
    && p Revision.homestead
    && p Revision.tangerine_whistle
    && p Revision.spurious_dragon
    && p Revision.byzantium
    && p Revision.constantinople
    && p Revision.petersburg
    && p Revision.istanbul
    && p Revision.berlin
    && p Revision.london
    && p Revision.paris
    && p Revision.shanghai
    && p Revision.cancun
    && p Revision.prague
    && p Revision.osaka
    && p Revision.experimental

pub all_revisions_sound :
    (p : Revision → Bool)
    → all_revisions p ≡ true
    → ((n : ℕ) → p (Revision.other n) ≡ true)
    → (r : Revision) → p r ≡ true
unfolding all_revisions
all_revisions_sound p h ho Revision.frontier = ground arith
all_revisions_sound p h ho (Revision.other n) = ho n
all_revisions_sound p h ho _ = ground arith

pub enumerators_sound :
    (p : Revision → Bool)
    → all_revisions p ≡ true
    → (r : Revision) → revision_value r ≤ revision_value max_revision
    → p r ≡ true
unfolding all_revisions revision_value
enumerators_sound p h Revision.frontier small = ground arith
enumerators_sound p h (Revision.other n) small = absurd (omega arith)
enumerators_sound p h _ small = ground arith

-- A test that the rows of every revision pass, at one entry.
module _ (p : RowTest) (h : all_revisions (revision_rows p) ≡ true) where
  pub row_holds :
      (r : Revision) (op : ℕ) (m : InstructionMetrics) (n : Option String)
      → instruction_metrics r op ≡ some m
      → instruction_name r op ≡ some n
      → p op m n ≡ true
  row_holds r op m n =
      revision_rows_sound p r op m n (all_revisions_sound (revision_rows p) h (λ k. no_rows k) r)
    where
      no_rows : (k : ℕ) → revision_rows p (Revision.other k) ≡ true
      no_rows k = unfold revision_rows evmc_get_instruction_metrics_table in refl

-- A test of the rows of a revision that speaks of a later one too, at all such pairs.
abbrev pub PairTest : Type 0
PairTest = Revision → Revision → RowTest

abbrev pair_rows : PairTest → Revision → Revision → Bool
pair_rows p s r =
    if leb (revision_value r) (revision_value s) then revision_rows (p r s) r else true

unfoldable pub all_pairs : PairTest → Bool
unfolding all_revisions revision_rows revision_value
all_pairs p = all_revisions (λ s. all_revisions (λ r. pair_rows p s r))

pub pair_holds :
    (p : PairTest)
    → all_pairs p ≡ true
    → (r s : Revision) (op : ℕ) (m : InstructionMetrics) (n : Option String)
    → revision_value r ≤ revision_value s
    → revision_value s ≤ revision_value max_revision
    → instruction_metrics r op ≡ some m
    → instruction_name r op ≡ some n
    → p r s op m n ≡ true
pair_holds p h r s op m n rs small hm hn =
    revision_rows_sound (p r s) r op m n (ground (arith, pair)) hm hn
  where
    pair : pair_rows p s r ≡ true
    pair =
        enumerators_sound (λ t. pair_rows p s t)
          (enumerators_sound (λ u. all_revisions (λ t. pair_rows p u t)) (unfold all_pairs in h) s
            small)
          r (omega arith)

abbrev pub same_truth : Bool → Bool → Bool
same_truth true b = b
same_truth false b = not b

abbrev pub is_null : Option String → Bool
is_null none = true
is_null (some s) = false

abbrev pub eq_metrics : InstructionMetrics → InstructionMetrics → Bool
eq_metrics a b =
    a.gas_cost == b.gas_cost
    && a.stack_height_required == b.stack_height_required
    && eq_ℤ a.stack_height_change b.stack_height_change
