-- ===== src/Instructions/Opcodes.antt =====
-- `enum evmc_opcode` of include/evmc/instructions.h.
pub mod Laws
use Prim.Native.String.{String}
use evmc.Base.{ℕ}

pub data Opcode : Type 0 where
  op_stop op_add op_mul op_sub op_div op_sdiv op_mod op_smod : Opcode
  op_addmod op_mulmod op_exp op_signextend op_lt op_gt op_slt op_sgt : Opcode
  op_eq op_iszero op_and op_or op_xor op_not op_byte op_shl : Opcode
  op_shr op_sar op_keccak256 op_address op_balance op_origin op_caller op_callvalue : Opcode
  op_calldataload op_calldatasize op_calldatacopy op_codesize op_codecopy op_gasprice op_extcodesize
        op_extcodecopy :
      Opcode
  op_returndatasize op_returndatacopy op_extcodehash op_blockhash op_coinbase op_timestamp op_number
        op_prevrandao :
      Opcode
  op_gaslimit op_chainid op_selfbalance op_basefee op_pop op_mload op_mstore op_mstore8 : Opcode
  op_sload op_sstore op_jump op_jumpi op_pc op_msize op_gas op_jumpdest : Opcode
  op_push0 op_push1 op_push2 op_push3 op_push4 op_push5 op_push6 op_push7 : Opcode
  op_push8 op_push9 op_push10 op_push11 op_push12 op_push13 op_push14 op_push15 : Opcode
  op_push16 op_push17 op_push18 op_push19 op_push20 op_push21 op_push22 op_push23 : Opcode
  op_push24 op_push25 op_push26 op_push27 op_push28 op_push29 op_push30 op_push31 : Opcode
  op_push32 op_dup1 op_dup2 op_dup3 op_dup4 op_dup5 op_dup6 op_dup7 : Opcode
  op_dup8 op_dup9 op_dup10 op_dup11 op_dup12 op_dup13 op_dup14 op_dup15 : Opcode
  op_dup16 op_swap1 op_swap2 op_swap3 op_swap4 op_swap5 op_swap6 op_swap7 : Opcode
  op_swap8 op_swap9 op_swap10 op_swap11 op_swap12 op_swap13 op_swap14 op_swap15 : Opcode
  op_swap16 op_log0 op_log1 op_log2 op_log3 op_log4 op_create op_call : Opcode
  op_callcode op_return op_delegatecall op_create2 op_staticcall op_revert op_invalid
        op_selfdestruct :
      Opcode

unfoldable pub opcode_value : Opcode → ℕ
opcode_value op_stop = 0x00
opcode_value op_add = 0x01
opcode_value op_mul = 0x02
opcode_value op_sub = 0x03
opcode_value op_div = 0x04
opcode_value op_sdiv = 0x05
opcode_value op_mod = 0x06
opcode_value op_smod = 0x07
opcode_value op_addmod = 0x08
opcode_value op_mulmod = 0x09
opcode_value op_exp = 0x0a
opcode_value op_signextend = 0x0b
opcode_value op_lt = 0x10
opcode_value op_gt = 0x11
opcode_value op_slt = 0x12
opcode_value op_sgt = 0x13
opcode_value op_eq = 0x14
opcode_value op_iszero = 0x15
opcode_value op_and = 0x16
opcode_value op_or = 0x17
opcode_value op_xor = 0x18
opcode_value op_not = 0x19
opcode_value op_byte = 0x1a
opcode_value op_shl = 0x1b
opcode_value op_shr = 0x1c
opcode_value op_sar = 0x1d
opcode_value op_keccak256 = 0x20
opcode_value op_address = 0x30
opcode_value op_balance = 0x31
opcode_value op_origin = 0x32
opcode_value op_caller = 0x33
opcode_value op_callvalue = 0x34
opcode_value op_calldataload = 0x35
opcode_value op_calldatasize = 0x36
opcode_value op_calldatacopy = 0x37
opcode_value op_codesize = 0x38
opcode_value op_codecopy = 0x39
opcode_value op_gasprice = 0x3a
opcode_value op_extcodesize = 0x3b
opcode_value op_extcodecopy = 0x3c
opcode_value op_returndatasize = 0x3d
opcode_value op_returndatacopy = 0x3e
opcode_value op_extcodehash = 0x3f
opcode_value op_blockhash = 0x40
opcode_value op_coinbase = 0x41
opcode_value op_timestamp = 0x42
opcode_value op_number = 0x43
opcode_value op_prevrandao = 0x44
opcode_value op_gaslimit = 0x45
opcode_value op_chainid = 0x46
opcode_value op_selfbalance = 0x47
opcode_value op_basefee = 0x48
opcode_value op_pop = 0x50
opcode_value op_mload = 0x51
opcode_value op_mstore = 0x52
opcode_value op_mstore8 = 0x53
opcode_value op_sload = 0x54
opcode_value op_sstore = 0x55
opcode_value op_jump = 0x56
opcode_value op_jumpi = 0x57
opcode_value op_pc = 0x58
opcode_value op_msize = 0x59
opcode_value op_gas = 0x5a
opcode_value op_jumpdest = 0x5b
opcode_value op_push0 = 0x5f
opcode_value op_push1 = 0x60
opcode_value op_push2 = 0x61
opcode_value op_push3 = 0x62
opcode_value op_push4 = 0x63
opcode_value op_push5 = 0x64
opcode_value op_push6 = 0x65
opcode_value op_push7 = 0x66
opcode_value op_push8 = 0x67
opcode_value op_push9 = 0x68
opcode_value op_push10 = 0x69
opcode_value op_push11 = 0x6a
opcode_value op_push12 = 0x6b
opcode_value op_push13 = 0x6c
opcode_value op_push14 = 0x6d
opcode_value op_push15 = 0x6e
opcode_value op_push16 = 0x6f
opcode_value op_push17 = 0x70
opcode_value op_push18 = 0x71
opcode_value op_push19 = 0x72
opcode_value op_push20 = 0x73
opcode_value op_push21 = 0x74
opcode_value op_push22 = 0x75
opcode_value op_push23 = 0x76
opcode_value op_push24 = 0x77
opcode_value op_push25 = 0x78
opcode_value op_push26 = 0x79
opcode_value op_push27 = 0x7a
opcode_value op_push28 = 0x7b
opcode_value op_push29 = 0x7c
opcode_value op_push30 = 0x7d
opcode_value op_push31 = 0x7e
opcode_value op_push32 = 0x7f
opcode_value op_dup1 = 0x80
opcode_value op_dup2 = 0x81
opcode_value op_dup3 = 0x82
opcode_value op_dup4 = 0x83
opcode_value op_dup5 = 0x84
opcode_value op_dup6 = 0x85
opcode_value op_dup7 = 0x86
opcode_value op_dup8 = 0x87
opcode_value op_dup9 = 0x88
opcode_value op_dup10 = 0x89
opcode_value op_dup11 = 0x8a
opcode_value op_dup12 = 0x8b
opcode_value op_dup13 = 0x8c
opcode_value op_dup14 = 0x8d
opcode_value op_dup15 = 0x8e
opcode_value op_dup16 = 0x8f
opcode_value op_swap1 = 0x90
opcode_value op_swap2 = 0x91
opcode_value op_swap3 = 0x92
opcode_value op_swap4 = 0x93
opcode_value op_swap5 = 0x94
opcode_value op_swap6 = 0x95
opcode_value op_swap7 = 0x96
opcode_value op_swap8 = 0x97
opcode_value op_swap9 = 0x98
opcode_value op_swap10 = 0x99
opcode_value op_swap11 = 0x9a
opcode_value op_swap12 = 0x9b
opcode_value op_swap13 = 0x9c
opcode_value op_swap14 = 0x9d
opcode_value op_swap15 = 0x9e
opcode_value op_swap16 = 0x9f
opcode_value op_log0 = 0xa0
opcode_value op_log1 = 0xa1
opcode_value op_log2 = 0xa2
opcode_value op_log3 = 0xa3
opcode_value op_log4 = 0xa4
opcode_value op_create = 0xf0
opcode_value op_call = 0xf1
opcode_value op_callcode = 0xf2
opcode_value op_return = 0xf3
opcode_value op_delegatecall = 0xf4
opcode_value op_create2 = 0xf5
opcode_value op_staticcall = 0xfa
opcode_value op_revert = 0xfd
opcode_value op_invalid = 0xfe
opcode_value op_selfdestruct = 0xff

-- The name of an enumerator without its `OP_`.
unfoldable pub opcode_spelling : Opcode → String
opcode_spelling op_stop = "STOP"
opcode_spelling op_add = "ADD"
opcode_spelling op_mul = "MUL"
opcode_spelling op_sub = "SUB"
opcode_spelling op_div = "DIV"
opcode_spelling op_sdiv = "SDIV"
opcode_spelling op_mod = "MOD"
opcode_spelling op_smod = "SMOD"
opcode_spelling op_addmod = "ADDMOD"
opcode_spelling op_mulmod = "MULMOD"
opcode_spelling op_exp = "EXP"
opcode_spelling op_signextend = "SIGNEXTEND"
opcode_spelling op_lt = "LT"
opcode_spelling op_gt = "GT"
opcode_spelling op_slt = "SLT"
opcode_spelling op_sgt = "SGT"
opcode_spelling op_eq = "EQ"
opcode_spelling op_iszero = "ISZERO"
opcode_spelling op_and = "AND"
opcode_spelling op_or = "OR"
opcode_spelling op_xor = "XOR"
opcode_spelling op_not = "NOT"
opcode_spelling op_byte = "BYTE"
opcode_spelling op_shl = "SHL"
opcode_spelling op_shr = "SHR"
opcode_spelling op_sar = "SAR"
opcode_spelling op_keccak256 = "KECCAK256"
opcode_spelling op_address = "ADDRESS"
opcode_spelling op_balance = "BALANCE"
opcode_spelling op_origin = "ORIGIN"
opcode_spelling op_caller = "CALLER"
opcode_spelling op_callvalue = "CALLVALUE"
opcode_spelling op_calldataload = "CALLDATALOAD"
opcode_spelling op_calldatasize = "CALLDATASIZE"
opcode_spelling op_calldatacopy = "CALLDATACOPY"
opcode_spelling op_codesize = "CODESIZE"
opcode_spelling op_codecopy = "CODECOPY"
opcode_spelling op_gasprice = "GASPRICE"
opcode_spelling op_extcodesize = "EXTCODESIZE"
opcode_spelling op_extcodecopy = "EXTCODECOPY"
opcode_spelling op_returndatasize = "RETURNDATASIZE"
opcode_spelling op_returndatacopy = "RETURNDATACOPY"
opcode_spelling op_extcodehash = "EXTCODEHASH"
opcode_spelling op_blockhash = "BLOCKHASH"
opcode_spelling op_coinbase = "COINBASE"
opcode_spelling op_timestamp = "TIMESTAMP"
opcode_spelling op_number = "NUMBER"
opcode_spelling op_prevrandao = "PREVRANDAO"
opcode_spelling op_gaslimit = "GASLIMIT"
opcode_spelling op_chainid = "CHAINID"
opcode_spelling op_selfbalance = "SELFBALANCE"
opcode_spelling op_basefee = "BASEFEE"
opcode_spelling op_pop = "POP"
opcode_spelling op_mload = "MLOAD"
opcode_spelling op_mstore = "MSTORE"
opcode_spelling op_mstore8 = "MSTORE8"
opcode_spelling op_sload = "SLOAD"
opcode_spelling op_sstore = "SSTORE"
opcode_spelling op_jump = "JUMP"
opcode_spelling op_jumpi = "JUMPI"
opcode_spelling op_pc = "PC"
opcode_spelling op_msize = "MSIZE"
opcode_spelling op_gas = "GAS"
opcode_spelling op_jumpdest = "JUMPDEST"
opcode_spelling op_push0 = "PUSH0"
opcode_spelling op_push1 = "PUSH1"
opcode_spelling op_push2 = "PUSH2"
opcode_spelling op_push3 = "PUSH3"
opcode_spelling op_push4 = "PUSH4"
opcode_spelling op_push5 = "PUSH5"
opcode_spelling op_push6 = "PUSH6"
opcode_spelling op_push7 = "PUSH7"
opcode_spelling op_push8 = "PUSH8"
opcode_spelling op_push9 = "PUSH9"
opcode_spelling op_push10 = "PUSH10"
opcode_spelling op_push11 = "PUSH11"
opcode_spelling op_push12 = "PUSH12"
opcode_spelling op_push13 = "PUSH13"
opcode_spelling op_push14 = "PUSH14"
opcode_spelling op_push15 = "PUSH15"
opcode_spelling op_push16 = "PUSH16"
opcode_spelling op_push17 = "PUSH17"
opcode_spelling op_push18 = "PUSH18"
opcode_spelling op_push19 = "PUSH19"
opcode_spelling op_push20 = "PUSH20"
opcode_spelling op_push21 = "PUSH21"
opcode_spelling op_push22 = "PUSH22"
opcode_spelling op_push23 = "PUSH23"
opcode_spelling op_push24 = "PUSH24"
opcode_spelling op_push25 = "PUSH25"
opcode_spelling op_push26 = "PUSH26"
opcode_spelling op_push27 = "PUSH27"
opcode_spelling op_push28 = "PUSH28"
opcode_spelling op_push29 = "PUSH29"
opcode_spelling op_push30 = "PUSH30"
opcode_spelling op_push31 = "PUSH31"
opcode_spelling op_push32 = "PUSH32"
opcode_spelling op_dup1 = "DUP1"
opcode_spelling op_dup2 = "DUP2"
opcode_spelling op_dup3 = "DUP3"
opcode_spelling op_dup4 = "DUP4"
opcode_spelling op_dup5 = "DUP5"
opcode_spelling op_dup6 = "DUP6"
opcode_spelling op_dup7 = "DUP7"
opcode_spelling op_dup8 = "DUP8"
opcode_spelling op_dup9 = "DUP9"
opcode_spelling op_dup10 = "DUP10"
opcode_spelling op_dup11 = "DUP11"
opcode_spelling op_dup12 = "DUP12"
opcode_spelling op_dup13 = "DUP13"
opcode_spelling op_dup14 = "DUP14"
opcode_spelling op_dup15 = "DUP15"
opcode_spelling op_dup16 = "DUP16"
opcode_spelling op_swap1 = "SWAP1"
opcode_spelling op_swap2 = "SWAP2"
opcode_spelling op_swap3 = "SWAP3"
opcode_spelling op_swap4 = "SWAP4"
opcode_spelling op_swap5 = "SWAP5"
opcode_spelling op_swap6 = "SWAP6"
opcode_spelling op_swap7 = "SWAP7"
opcode_spelling op_swap8 = "SWAP8"
opcode_spelling op_swap9 = "SWAP9"
opcode_spelling op_swap10 = "SWAP10"
opcode_spelling op_swap11 = "SWAP11"
opcode_spelling op_swap12 = "SWAP12"
opcode_spelling op_swap13 = "SWAP13"
opcode_spelling op_swap14 = "SWAP14"
opcode_spelling op_swap15 = "SWAP15"
opcode_spelling op_swap16 = "SWAP16"
opcode_spelling op_log0 = "LOG0"
opcode_spelling op_log1 = "LOG1"
opcode_spelling op_log2 = "LOG2"
opcode_spelling op_log3 = "LOG3"
opcode_spelling op_log4 = "LOG4"
opcode_spelling op_create = "CREATE"
opcode_spelling op_call = "CALL"
opcode_spelling op_callcode = "CALLCODE"
opcode_spelling op_return = "RETURN"
opcode_spelling op_delegatecall = "DELEGATECALL"
opcode_spelling op_create2 = "CREATE2"
opcode_spelling op_staticcall = "STATICCALL"
opcode_spelling op_revert = "REVERT"
opcode_spelling op_invalid = "INVALID"
opcode_spelling op_selfdestruct = "SELFDESTRUCT"
