-- ===== src/ExampleVm/Machine.antt =====
-- The state of `execute` of the example VM, and the cases of its `switch`.
use evmc.Base.{
  ℕ, suc, zero, ◌+◌, ◌-◌, Bool, true, false, ◌&&◌, none, some, List, [], ◌∷◌, leb, ◌==◌,
  if◌then◌else◌,
}
use evmc.Base.Int.{ℤ, pos, negsuc}
use evmc.Evmc.{StatusCode}
use evmc.Instructions.Opcodes.{
  opcode_value, op_stop, op_add, op_address, op_calldataload, op_number, op_mstore, op_sload,
  op_sstore, op_msize, op_push1, op_push32, op_dup1, op_call, op_return, op_revert,
}
use evmc.ExampleVm.Memory.{Stack, Memory, push}

-- The variables of the loop, with the state of the host.
pub record Machine (S : Type 0) : Type 0 where
  pub pc : ℕ
  pub gas_left : ℤ
  pub stack : Stack
  pub memory : Memory
  pub host : S

-- The end of a round: the next round, a `return` of a result made of a status, gas, and an output with
-- its size, or an access outside an array, which is undefined behaviour.
pub data Step (S : Type 0) : Type 0 where
  next : Machine S → Step S
  returned : StatusCode → ℤ → List ℕ → ℕ → S → Step S
  fault : Step S

-- `return evmc_make_result(status, 0, 0, nullptr, 0)`
abbrev pub failed : {S : Type 0} → StatusCode → Machine S → Step S
failed status m = returned status (pos 0) [] 0 m.host

abbrev pub with_pop : {S : Type 0} → Machine S → (ℕ → Machine S → Step S) → Step S
with_pop m k = elim (m.stack) [ [] ↦ fault | value ∷ stack ↦ k value (record m { stack = stack }) ]

abbrev pub with_push : {S : Type 0} → ℕ → Machine S → (Machine S → Step S) → Step S
with_push value m k = elim (push value m.stack) [
  | none ↦ fault
  | some stack ↦ k (record m { stack = stack })
]

-- `gas_left -= 1`, and `gas_left < 0`. Numbers out of the range of int64_t are not reached from the
-- smallest one but by this subtraction from it, which the code leaves undefined.
abbrev pub minus_one : ℤ → ℤ
minus_one (pos zero) = negsuc zero
minus_one (pos (suc n)) = pos n
minus_one (negsuc n) = negsuc (suc n)

abbrev pub is_negative : ℤ → Bool
is_negative (pos n) = false
is_negative (negsuc n) = true

-- The cases of the `switch`; `case_push n` stands for OP_PUSHn.
pub data Case : Type 0 where
  case_stop case_add case_address case_calldataload case_number case_mstore case_sload : Case
  case_sstore case_msize case_dup1 case_call case_return case_revert case_default : Case
  case_push : ℕ → Case

unfoldable pub case_of : ℕ → Case
unfolding opcode_value
case_of b =
    if b == opcode_value op_stop
    then case_stop
    else if b == opcode_value op_add
    then case_add
    else if b == opcode_value op_address
    then case_address
    else if b == opcode_value op_calldataload
    then case_calldataload
    else if b == opcode_value op_number
    then case_number
    else if b == opcode_value op_mstore
    then case_mstore
    else if b == opcode_value op_sload
    then case_sload
    else if b == opcode_value op_sstore
    then case_sstore
    else if b == opcode_value op_msize
    then case_msize
    else if leb (opcode_value op_push1) b && leb b (opcode_value op_push32)
    then case_push (b - opcode_value op_push1 + 1)
    else if b == opcode_value op_dup1
    then case_dup1
    else if b == opcode_value op_call
    then case_call
    else if b == opcode_value op_return
    then case_return
    else if b == opcode_value op_revert
    then case_revert
    else case_default
