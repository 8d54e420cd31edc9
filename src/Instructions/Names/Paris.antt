-- ===== src/Instructions/Names/Paris.antt =====
-- `paris_names` of lib/instructions/instruction_names.c. A null pointer is `none`.
use Prim.Native.String.{String}
use evmc.Base.{List, [], ◌∷◌, Option, none, some}

unfoldable pub paris_names : List (Option String)
paris_names =
    some "STOP"
    ∷ some "ADD"
    ∷ some "MUL"
    ∷ some "SUB"
    ∷ some "DIV"
    ∷ some "SDIV"
    ∷ some "MOD"
    ∷ some "SMOD"
    ∷ some "ADDMOD"
    ∷ some "MULMOD"
    ∷ some "EXP"
    ∷ some "SIGNEXTEND"
    ∷ none
    ∷ none
    ∷ none
    ∷ none
    ∷ some "LT"
    ∷ some "GT"
    ∷ some "SLT"
    ∷ some "SGT"
    ∷ some "EQ"
    ∷ some "ISZERO"
    ∷ some "AND"
    ∷ some "OR"
    ∷ some "XOR"
    ∷ some "NOT"
    ∷ some "BYTE"
    ∷ some "SHL"
    ∷ some "SHR"
    ∷ some "SAR"
    ∷ none
    ∷ none
    ∷ some "KECCAK256"
    ∷ none
    ∷ none
    ∷ none
    ∷ none
    ∷ none
    ∷ none
    ∷ none
    ∷ none
    ∷ none
    ∷ none
    ∷ none
    ∷ none
    ∷ none
    ∷ none
    ∷ none
    ∷ some "ADDRESS"
    ∷ some "BALANCE"
    ∷ some "ORIGIN"
    ∷ some "CALLER"
    ∷ some "CALLVALUE"
    ∷ some "CALLDATALOAD"
    ∷ some "CALLDATASIZE"
    ∷ some "CALLDATACOPY"
    ∷ some "CODESIZE"
    ∷ some "CODECOPY"
    ∷ some "GASPRICE"
    ∷ some "EXTCODESIZE"
    ∷ some "EXTCODECOPY"
    ∷ some "RETURNDATASIZE"
    ∷ some "RETURNDATACOPY"
    ∷ some "EXTCODEHASH"
    ∷ some "BLOCKHASH"
    ∷ some "COINBASE"
    ∷ some "TIMESTAMP"
    ∷ some "NUMBER"
    ∷ some "PREVRANDAO"
    ∷ some "GASLIMIT"
    ∷ some "CHAINID"
    ∷ some "SELFBALANCE"
    ∷ some "BASEFEE"
    ∷ none
    ∷ none
    ∷ none
    ∷ none
    ∷ none
    ∷ none
    ∷ none
    ∷ some "POP"
    ∷ some "MLOAD"
    ∷ some "MSTORE"
    ∷ some "MSTORE8"
    ∷ some "SLOAD"
    ∷ some "SSTORE"
    ∷ some "JUMP"
    ∷ some "JUMPI"
    ∷ some "PC"
    ∷ some "MSIZE"
    ∷ some "GAS"
    ∷ some "JUMPDEST"
    ∷ none
    ∷ none
    ∷ none
    ∷ none
    ∷ some "PUSH1"
    ∷ some "PUSH2"
    ∷ some "PUSH3"
    ∷ some "PUSH4"
    ∷ some "PUSH5"
    ∷ some "PUSH6"
    ∷ some "PUSH7"
    ∷ some "PUSH8"
    ∷ some "PUSH9"
    ∷ some "PUSH10"
    ∷ some "PUSH11"
    ∷ some "PUSH12"
    ∷ some "PUSH13"
    ∷ some "PUSH14"
    ∷ some "PUSH15"
    ∷ some "PUSH16"
    ∷ some "PUSH17"
    ∷ some "PUSH18"
    ∷ some "PUSH19"
    ∷ some "PUSH20"
    ∷ some "PUSH21"
    ∷ some "PUSH22"
    ∷ some "PUSH23"
    ∷ some "PUSH24"
    ∷ some "PUSH25"
    ∷ some "PUSH26"
    ∷ some "PUSH27"
    ∷ some "PUSH28"
    ∷ some "PUSH29"
    ∷ some "PUSH30"
    ∷ some "PUSH31"
    ∷ some "PUSH32"
    ∷ some "DUP1"
    ∷ some "DUP2"
    ∷ some "DUP3"
    ∷ some "DUP4"
    ∷ some "DUP5"
    ∷ some "DUP6"
    ∷ some "DUP7"
    ∷ some "DUP8"
    ∷ some "DUP9"
    ∷ some "DUP10"
    ∷ some "DUP11"
    ∷ some "DUP12"
    ∷ some "DUP13"
    ∷ some "DUP14"
    ∷ some "DUP15"
    ∷ some "DUP16"
    ∷ some "SWAP1"
    ∷ some "SWAP2"
    ∷ some "SWAP3"
    ∷ some "SWAP4"
    ∷ some "SWAP5"
    ∷ some "SWAP6"
    ∷ some "SWAP7"
    ∷ some "SWAP8"
    ∷ some "SWAP9"
    ∷ some "SWAP10"
    ∷ some "SWAP11"
    ∷ some "SWAP12"
    ∷ some "SWAP13"
    ∷ some "SWAP14"
    ∷ some "SWAP15"
    ∷ some "SWAP16"
    ∷ some "LOG0"
    ∷ some "LOG1"
    ∷ some "LOG2"
    ∷ some "LOG3"
    ∷ some "LOG4"
    ∷ none
    ∷ none
    ∷ none
    ∷ none
    ∷ none
    ∷ none
    ∷ none
    ∷ none
    ∷ none
    ∷ none
    ∷ none
    ∷ none
    ∷ none
    ∷ none
    ∷ none
    ∷ none
    ∷ none
    ∷ none
    ∷ none
    ∷ none
    ∷ none
    ∷ none
    ∷ none
    ∷ none
    ∷ none
    ∷ none
    ∷ none
    ∷ none
    ∷ none
    ∷ none
    ∷ none
    ∷ none
    ∷ none
    ∷ none
    ∷ none
    ∷ none
    ∷ none
    ∷ none
    ∷ none
    ∷ none
    ∷ none
    ∷ none
    ∷ none
    ∷ none
    ∷ none
    ∷ none
    ∷ none
    ∷ none
    ∷ none
    ∷ none
    ∷ none
    ∷ none
    ∷ none
    ∷ none
    ∷ none
    ∷ none
    ∷ none
    ∷ none
    ∷ none
    ∷ none
    ∷ none
    ∷ none
    ∷ none
    ∷ none
    ∷ none
    ∷ none
    ∷ none
    ∷ none
    ∷ none
    ∷ none
    ∷ none
    ∷ none
    ∷ none
    ∷ none
    ∷ none
    ∷ some "CREATE"
    ∷ some "CALL"
    ∷ some "CALLCODE"
    ∷ some "RETURN"
    ∷ some "DELEGATECALL"
    ∷ some "CREATE2"
    ∷ none
    ∷ none
    ∷ none
    ∷ none
    ∷ some "STATICCALL"
    ∷ none
    ∷ none
    ∷ some "REVERT"
    ∷ some "INVALID"
    ∷ some "SELFDESTRUCT"
    ∷ []
