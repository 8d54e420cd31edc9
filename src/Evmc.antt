-- ===== src/Evmc.antt =====
-- The enumerations of include/evmc/evmc.h.
pub mod Messages
pub mod Host
use evmc.Base.{ℕ, ◌+◌, suc}
use evmc.Base.Int.{ℤ, pos, minus}

-- `enum evmc_revision`. `other n` is the value 16 + n, which no enumerator has.
pub data Revision : Type 0 where
  frontier homestead tangerine_whistle spurious_dragon : Revision
  byzantium constantinople petersburg istanbul : Revision
  berlin london paris shanghai cancun prague osaka experimental : Revision
  other : ℕ → Revision

-- The number that stands for a revision.
unfoldable pub revision_value : Revision → ℕ
revision_value Revision.frontier = 0
revision_value Revision.homestead = 1
revision_value Revision.tangerine_whistle = 2
revision_value Revision.spurious_dragon = 3
revision_value Revision.byzantium = 4
revision_value Revision.constantinople = 5
revision_value Revision.petersburg = 6
revision_value Revision.istanbul = 7
revision_value Revision.berlin = 8
revision_value Revision.london = 9
revision_value Revision.paris = 10
revision_value Revision.shanghai = 11
revision_value Revision.cancun = 12
revision_value Revision.prague = 13
revision_value Revision.osaka = 14
revision_value Revision.experimental = 15
revision_value (Revision.other n) = 16 + n

abbrev pub max_revision : Revision
max_revision = Revision.experimental

-- `enum evmc_status_code`. `other n` is the value 18 + n and `other_internal n` the value -(4 + n),
-- which no enumerator has.
pub data StatusCode : Type 0 where
  success failure revert out_of_gas invalid_instruction undefined_instruction : StatusCode
  stack_overflow stack_underflow bad_jump_destination invalid_memory_access : StatusCode
  call_depth_exceeded static_mode_violation precompile_failure : StatusCode
  contract_validation_failure argument_out_of_range : StatusCode
  wasm_unreachable_instruction wasm_trap insufficient_balance : StatusCode
  internal_error rejected out_of_memory : StatusCode
  other other_internal : ℕ → StatusCode

-- The number that stands for a status code.
unfoldable pub status_code_value : StatusCode → ℤ
status_code_value StatusCode.success = pos 0
status_code_value StatusCode.failure = pos 1
status_code_value StatusCode.revert = pos 2
status_code_value StatusCode.out_of_gas = pos 3
status_code_value StatusCode.invalid_instruction = pos 4
status_code_value StatusCode.undefined_instruction = pos 5
status_code_value StatusCode.stack_overflow = pos 6
status_code_value StatusCode.stack_underflow = pos 7
status_code_value StatusCode.bad_jump_destination = pos 8
status_code_value StatusCode.invalid_memory_access = pos 9
status_code_value StatusCode.call_depth_exceeded = pos 10
status_code_value StatusCode.static_mode_violation = pos 11
status_code_value StatusCode.precompile_failure = pos 12
status_code_value StatusCode.contract_validation_failure = pos 13
status_code_value StatusCode.argument_out_of_range = pos 14
status_code_value StatusCode.wasm_unreachable_instruction = pos 15
status_code_value StatusCode.wasm_trap = pos 16
status_code_value StatusCode.insufficient_balance = pos 17
status_code_value StatusCode.internal_error = minus 1
status_code_value StatusCode.rejected = minus 2
status_code_value StatusCode.out_of_memory = minus 3
status_code_value (StatusCode.other n) = pos (18 + n)
status_code_value (StatusCode.other_internal n) = minus (suc (suc (suc (suc n))))
