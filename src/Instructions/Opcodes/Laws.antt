-- ===== src/Instructions/Opcodes/Laws.antt =====
-- The enumeration of opcodes and the tables of names.
use Prim.Native.String.{String}
use text.Mathlib.Text.{◌==◌ as str_eq}
use text.Mathlib.TextEquality.{eq_iff}
use evmc.Base.{
  ℕ, ◌≡◌, ◌⊎◌, inl, inr, refl, ◌∙◌, true, false, ◌==◌, ◌&&◌, if◌then◌else◌, Option, none, some,
  List, [], ◌∷◌, arith, Option-cases,
}
use evmc.Evmc.{Revision, max_revision}
use evmc.Instructions.Types.{InstructionMetrics}
use evmc.Instructions.Tables.{evmc_get_instruction_metrics_table, evmc_get_instruction_names_table}
use evmc.Instructions.Lookup.{
  RowTest, revision_rows, revision_rows_sound, instruction_name, instruction_metrics,
}
use evmc.Instructions.Totality.{range_of_metrics}
use evmc.Instructions.Evolution.{instructions_kept}
use evmc.Instructions.Opcodes.{
  Opcode, opcode_value, opcode_spelling, op_stop, op_add, op_mul, op_sub, op_div, op_sdiv, op_mod,
  op_smod, op_addmod, op_mulmod, op_exp, op_signextend, op_lt, op_gt, op_slt, op_sgt, op_eq,
  op_iszero, op_and, op_or, op_xor, op_not, op_byte, op_shl, op_shr, op_sar, op_keccak256,
  op_address, op_balance, op_origin, op_caller, op_callvalue, op_calldataload, op_calldatasize,
  op_calldatacopy, op_codesize, op_codecopy, op_gasprice, op_extcodesize, op_extcodecopy,
  op_returndatasize, op_returndatacopy, op_extcodehash, op_blockhash, op_coinbase, op_timestamp,
  op_number, op_prevrandao, op_gaslimit, op_chainid, op_selfbalance, op_basefee, op_pop, op_mload,
  op_mstore, op_mstore8, op_sload, op_sstore, op_jump, op_jumpi, op_pc, op_msize, op_gas,
  op_jumpdest, op_push0, op_push1, op_push2, op_push3, op_push4, op_push5, op_push6, op_push7,
  op_push8, op_push9, op_push10, op_push11, op_push12, op_push13, op_push14, op_push15, op_push16,
  op_push17, op_push18, op_push19, op_push20, op_push21, op_push22, op_push23, op_push24, op_push25,
  op_push26, op_push27, op_push28, op_push29, op_push30, op_push31, op_push32, op_dup1, op_dup2,
  op_dup3, op_dup4, op_dup5, op_dup6, op_dup7, op_dup8, op_dup9, op_dup10, op_dup11, op_dup12,
  op_dup13, op_dup14, op_dup15, op_dup16, op_swap1, op_swap2, op_swap3, op_swap4, op_swap5,
  op_swap6, op_swap7, op_swap8, op_swap9, op_swap10, op_swap11, op_swap12, op_swap13, op_swap14,
  op_swap15, op_swap16, op_log0, op_log1, op_log2, op_log3, op_log4, op_create, op_call,
  op_callcode, op_return, op_delegatecall, op_create2, op_staticcall, op_revert, op_invalid,
  op_selfdestruct,
}

abbrev opcodes : List Opcode
opcodes =
    op_stop ∷ op_add ∷ op_mul ∷ op_sub ∷ op_div ∷ op_sdiv ∷ op_mod ∷ op_smod ∷ op_addmod ∷ op_mulmod
    ∷ op_exp ∷ op_signextend ∷ op_lt ∷ op_gt ∷ op_slt ∷ op_sgt ∷ op_eq ∷ op_iszero ∷ op_and ∷ op_or
    ∷ op_xor ∷ op_not ∷ op_byte ∷ op_shl ∷ op_shr ∷ op_sar ∷ op_keccak256 ∷ op_address ∷ op_balance
    ∷ op_origin ∷ op_caller ∷ op_callvalue ∷ op_calldataload ∷ op_calldatasize ∷ op_calldatacopy
    ∷ op_codesize ∷ op_codecopy ∷ op_gasprice ∷ op_extcodesize ∷ op_extcodecopy ∷ op_returndatasize
    ∷ op_returndatacopy ∷ op_extcodehash ∷ op_blockhash ∷ op_coinbase ∷ op_timestamp ∷ op_number
    ∷ op_prevrandao ∷ op_gaslimit ∷ op_chainid ∷ op_selfbalance ∷ op_basefee ∷ op_pop ∷ op_mload
    ∷ op_mstore ∷ op_mstore8 ∷ op_sload ∷ op_sstore ∷ op_jump ∷ op_jumpi ∷ op_pc ∷ op_msize ∷ op_gas
    ∷ op_jumpdest ∷ op_push0 ∷ op_push1 ∷ op_push2 ∷ op_push3 ∷ op_push4 ∷ op_push5 ∷ op_push6
    ∷ op_push7 ∷ op_push8 ∷ op_push9 ∷ op_push10 ∷ op_push11 ∷ op_push12 ∷ op_push13 ∷ op_push14
    ∷ op_push15 ∷ op_push16 ∷ op_push17 ∷ op_push18 ∷ op_push19 ∷ op_push20 ∷ op_push21 ∷ op_push22
    ∷ op_push23 ∷ op_push24 ∷ op_push25 ∷ op_push26 ∷ op_push27 ∷ op_push28 ∷ op_push29 ∷ op_push30
    ∷ op_push31 ∷ op_push32 ∷ op_dup1 ∷ op_dup2 ∷ op_dup3 ∷ op_dup4 ∷ op_dup5 ∷ op_dup6 ∷ op_dup7
    ∷ op_dup8 ∷ op_dup9 ∷ op_dup10 ∷ op_dup11 ∷ op_dup12 ∷ op_dup13 ∷ op_dup14 ∷ op_dup15 ∷ op_dup16
    ∷ op_swap1 ∷ op_swap2 ∷ op_swap3 ∷ op_swap4 ∷ op_swap5 ∷ op_swap6 ∷ op_swap7 ∷ op_swap8
    ∷ op_swap9 ∷ op_swap10 ∷ op_swap11 ∷ op_swap12 ∷ op_swap13 ∷ op_swap14 ∷ op_swap15 ∷ op_swap16
    ∷ op_log0 ∷ op_log1 ∷ op_log2 ∷ op_log3 ∷ op_log4 ∷ op_create ∷ op_call ∷ op_callcode
    ∷ op_return ∷ op_delegatecall ∷ op_create2 ∷ op_staticcall ∷ op_revert ∷ op_invalid
    ∷ op_selfdestruct ∷ []

-- The enumerator with a value and a spelling.
abbrev enumerator : List Opcode → ℕ → String → Option Opcode
enumerator [] op name = none
enumerator (o ∷ rest) op name =
    if opcode_value o == op && str_eq (opcode_spelling o) name
    then some o
    else enumerator rest op name

enumerator_found :
    (os : List Opcode) (op : ℕ) (name : String) (o : Opcode)
    → enumerator os op name ≡ some o
    → (opcode_value o ≡ op) × (opcode_spelling o ≡ name)
enumerator_found [] op name o h = cc
enumerator_found (a ∷ os) op name o h =
    ground (arith, enumerator_found os op name o, eq_iff (opcode_spelling a) name)

abbrev enumerated_test : RowTest
enumerated_test op m none = true
enumerated_test op m (some name) = elim (enumerator opcodes op name) [
  | none ↦ false
  | some o ↦ true
]

enumerated_rows : revision_rows enumerated_test max_revision ≡ true
unfolding revision_rows evmc_get_instruction_metrics_table evmc_get_instruction_names_table
    opcode_value opcode_spelling
enumerated_rows = refl

-- An enumerator's name, without its `OP_`, is the name that the table of EVMC_MAX_REVISION has for
-- its value.
pub opcode_spelling-name :
    (o : Opcode) → instruction_name max_revision (opcode_value o) ≡ some (some (opcode_spelling o))
unfolding instruction_name evmc_get_instruction_names_table opcode_value opcode_spelling
opcode_spelling-name op_stop = refl
opcode_spelling-name _ = refl

enumerated_row :
    (op : ℕ) (m : InstructionMetrics) (name : String)
    → enumerated_test op m (some name) ≡ true
    → (o : Opcode) × (opcode_value o ≡ op) × (opcode_spelling o ≡ name)
enumerated_row op m name h = elim (Option-cases (enumerator opcodes op name)) [
  | inl e ↦ ground arith
  | inr (o, e) ↦ let (v, s) = enumerator_found opcodes op name o e in (o, v, s)
]

-- An opcode that has metrics and a name in some revision is the value of an enumerator of that name,
-- but that 0x44 is DIFFICULTY in the earlier revisions and OP_PREVRANDAO in the enumeration.
pub opcode-enumerated :
    (r : Revision) (op : ℕ) (m : InstructionMetrics) (a : String)
    → instruction_metrics r op ≡ some m
    → instruction_name r op ≡ some (some a)
    → (o : Opcode) × (opcode_value o ≡ op)
      × ((opcode_spelling o ≡ a)
          ⊎ ((op ≡ 0x44) × (a ≡ "DIFFICULTY") × (opcode_spelling o ≡ "PREVRANDAO")))
opcode-enumerated r op m a hm hn =
    let (small, _) = range_of_metrics r op m hm in
    let (b, m', hn', hm', same, _, _) =
      instructions_kept r max_revision op m a small (omega arith) hm hn in
    let (o, value, name) =
      enumerated_row op m' b
        (revision_rows_sound enumerated_test max_revision op m' (some b) enumerated_rows hm' hn') in
    (
      o,
      value,
      elim same [ inl e ↦ inl (name ∙ e) | inr (at, old, new) ↦ inr (at, old, name ∙ new) ],
    )
