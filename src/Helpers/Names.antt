-- ===== src/Helpers/Names.antt =====
-- The names of status codes and revisions in include/evmc/helpers.h.
pub mod Laws
use Prim.Native.String.{String}
use evmc.Evmc.{StatusCode, Revision}

unfoldable pub evmc_status_code_to_string : StatusCode → String
evmc_status_code_to_string StatusCode.success = "success"
evmc_status_code_to_string StatusCode.failure = "failure"
evmc_status_code_to_string StatusCode.revert = "revert"
evmc_status_code_to_string StatusCode.out_of_gas = "out of gas"
evmc_status_code_to_string StatusCode.invalid_instruction = "invalid instruction"
evmc_status_code_to_string StatusCode.undefined_instruction = "undefined instruction"
evmc_status_code_to_string StatusCode.stack_overflow = "stack overflow"
evmc_status_code_to_string StatusCode.stack_underflow = "stack underflow"
evmc_status_code_to_string StatusCode.bad_jump_destination = "bad jump destination"
evmc_status_code_to_string StatusCode.invalid_memory_access = "invalid memory access"
evmc_status_code_to_string StatusCode.call_depth_exceeded = "call depth exceeded"
evmc_status_code_to_string StatusCode.static_mode_violation = "static mode violation"
evmc_status_code_to_string StatusCode.precompile_failure = "precompile failure"
evmc_status_code_to_string StatusCode.contract_validation_failure = "contract validation failure"
evmc_status_code_to_string StatusCode.argument_out_of_range = "argument out of range"
evmc_status_code_to_string StatusCode.wasm_unreachable_instruction = "wasm unreachable instruction"
evmc_status_code_to_string StatusCode.wasm_trap = "wasm trap"
evmc_status_code_to_string StatusCode.insufficient_balance = "insufficient balance"
evmc_status_code_to_string StatusCode.internal_error = "internal error"
evmc_status_code_to_string StatusCode.rejected = "rejected"
evmc_status_code_to_string StatusCode.out_of_memory = "out of memory"
evmc_status_code_to_string (StatusCode.other n) = "<unknown>"
evmc_status_code_to_string (StatusCode.other_internal n) = "<unknown>"

unfoldable pub evmc_revision_to_string : Revision → String
evmc_revision_to_string Revision.frontier = "Frontier"
evmc_revision_to_string Revision.homestead = "Homestead"
evmc_revision_to_string Revision.tangerine_whistle = "Tangerine Whistle"
evmc_revision_to_string Revision.spurious_dragon = "Spurious Dragon"
evmc_revision_to_string Revision.byzantium = "Byzantium"
evmc_revision_to_string Revision.constantinople = "Constantinople"
evmc_revision_to_string Revision.petersburg = "Petersburg"
evmc_revision_to_string Revision.istanbul = "Istanbul"
evmc_revision_to_string Revision.berlin = "Berlin"
evmc_revision_to_string Revision.london = "London"
evmc_revision_to_string Revision.paris = "Paris"
evmc_revision_to_string Revision.shanghai = "Shanghai"
evmc_revision_to_string Revision.cancun = "Cancun"
evmc_revision_to_string Revision.prague = "Prague"
evmc_revision_to_string Revision.osaka = "Osaka"
evmc_revision_to_string Revision.experimental = "Experimental"
evmc_revision_to_string (Revision.other n) = "<unknown>"
