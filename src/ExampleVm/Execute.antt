-- ===== src/ExampleVm/Execute.antt =====
-- `execute` of the example VM.
pub mod Rounds
pub mod Laws
pub mod Runs
pub mod Gas
use evmc.Base.{
  ℕ, zero, suc, ◌+◌, ◌-◌, ◌*◌, ◌%◌, ◌^◌, Bool, true, false, Option, none, some, List, [], ◌∷◌, ◌++◌,
  length, take, drop, replicate, get_elem?, ltb, leb, ◌==◌, if◌then◌else◌,
}
use evmc.Base.Int.{ℤ, pos, negsuc}
use evmc.Base.Words.{word_of_bytes, bytes_of_word}
use evmc.Evmc.{StatusCode, Revision, revision_value}
use evmc.Evmc.Messages.{Message, call_kind, InputPointer, outside, TxContext, EvmcResult}
use evmc.Evmc.Host.{HostInterface}
use evmc.ExampleVm.Memory.{
  Stack, Memory, empty_memory, expand, store, region, to_uint32, to_address, to_uint256,
  uint32_of_int,
}
use evmc.ExampleVm.Machine.{
  Machine, Step, next, returned, fault, failed, with_pop, with_push, minus_one, is_negative, Case,
  case_stop, case_add, case_address, case_calldataload, case_number, case_mstore, case_sload,
  case_sstore, case_msize, case_dup1, case_call, case_return, case_revert, case_default, case_push,
  case_of,
}

abbrev pub is_success : StatusCode → Bool
is_success StatusCode.success = true
is_success _ = false

-- `std::min`
abbrev min : ℕ → ℕ → ℕ
min a b = if ltb b a then b else a

-- How the execution ends.
pub data Outcome (S : Type 0) : Type 0 where
  finished : StatusCode → ℤ → List ℕ → ℕ → S → Outcome S
  faulted : Outcome S
  out_of_fuel : Outcome S

-- `read` is the memory that the output of a result leads to, `release` the call of the release function
-- of a result, and `data_address` the address of the VM's memory. `input` is the memory that the
-- message's input leads to.
module _ {S : Type 0} (host : HostInterface S) (read : EvmcResult → S → List ℕ)
    (release : EvmcResult → S → S) (data_address : ℕ) (rev : Revision) (msg : Message)
    (input code : List ℕ) where
  abbrev pub calldata : ℕ → List ℕ
  calldata offset =
      if ltb offset msg.input_size
      then (let copy_size = min (msg.input_size - offset) 32 in
          take copy_size (drop offset input) ++ replicate (32 - copy_size) 0)
      else replicate 32 0

  -- The cases OP_RETURN and OP_REVERT behind the test of the revision.
  unfoldable pub return_region : StatusCode → Machine S → Step S
  unfolding expand region
  return_region status m = with_pop m λ offset m. with_pop m λ size m.
      let (p, memory) = expand (to_uint32 offset) (to_uint32 size) m.memory in
      elim p [
        | none ↦ failed StatusCode.failure m
        | some output_ptr ↦ elim (region output_ptr (to_uint32 size) memory) [
          | none ↦ fault
          | some output ↦ returned status m.gas_left output (to_uint32 size) m.host
        ]
      ]

  abbrev pub call_message : ℕ → ℕ → ℕ → ℕ → ℕ → Message
  call_message gas recipient value offset size = record {
    kind = call_kind;
    flags = 0;
    depth = pos 0;
    gas = pos (to_uint32 gas);
    recipient = to_address recipient;
    sender = 0;
    input_data = outside (some (data_address + offset));
    input_size = size;
    value = value;
    create2_salt = 0;
    code_address = 0;
    code = none;
    code_size = 0;
  }

  -- The case OP_CALL behind `host->call`.
  unfoldable pub call_returned : ℕ → ℕ → EvmcResult → Machine S → Step S
  unfolding store
  call_returned output_offset output_size result m =
      with_push (to_uint256 (if is_success result.status_code then 1 else 0)) m λ m.
        let size = if ltb result.output_size output_size then result.output_size else output_size in
        elim (store output_offset (take size (read result m.host)) m.memory) [
          | none ↦ fault
          | some (stored, memory) ↦
              let m = record m { memory = memory } in
              elim (result.release) [
                | none ↦ next m
                | some f ↦ next (record m { host = release result m.host })
              ]
        ]

  unfoldable pub do_call : Machine S → Step S
  unfolding expand region call_returned
  do_call m = with_pop m λ gas m. with_pop m λ recipient m. with_pop m λ value m.
      with_pop m λ input_offset m. with_pop m λ input_size m.
        let (input_data, memory) =
          expand (to_uint32 input_offset) (to_uint32 input_size) m.memory in
        let m = record m { memory = memory } in
        with_pop m λ output_offset m. with_pop m λ output_size m.
          let (output_ptr, memory) =
            expand (to_uint32 output_offset) (to_uint32 output_size) m.memory in
          let m = record m { memory = memory } in
          elim input_data [
            | none ↦ failed StatusCode.failure m
            | some input_ptr ↦ elim output_ptr [
              | none ↦ failed StatusCode.failure m
              | some p ↦ elim (region input_ptr (to_uint32 input_size) memory) [
                | none ↦ fault
                | some bytes ↦
                    let call_msg =
                      call_message gas recipient value input_ptr (to_uint32 input_size) in
                    let (result, h) = host.call call_msg bytes m.host in
                    call_returned (to_uint32 output_offset) (to_uint32 output_size) result
                      (record m { host = h })
              ]
            ]
          ]

  -- The body of a case of the `switch`.
  unfoldable pub execute_case : Case → Machine S → Step S
  unfolding store return_region do_call
  execute_case case_default m = failed StatusCode.undefined_instruction m
  execute_case case_stop m = returned StatusCode.success m.gas_left [] 0 m.host
  execute_case case_add m = with_pop m λ a m.
      with_pop m λ b m. with_push (to_uint256 ((to_uint32 a + to_uint32 b) % 2 ^ 32)) m λ m. next m
  execute_case case_address m = with_push (to_uint256 msg.recipient) m λ m. next m
  execute_case case_calldataload m =
      with_pop m λ offset m. with_push (word_of_bytes (calldata (to_uint32 offset))) m λ m. next m
  execute_case case_number m =
      let (context, h) = host.get_tx_context m.host in
      with_push (to_uint256 (uint32_of_int context.block_number)) (record m { host = h })
        λ m. next m
  execute_case case_mstore m = with_pop m λ index m. with_pop m λ value m.
      elim (store (to_uint32 index) (bytes_of_word 32 value) m.memory) [
        | none ↦ fault
        | some (stored, memory) ↦
            if stored then next (record m { memory = memory }) else failed StatusCode.failure m
      ]
  execute_case case_sload m = with_pop m λ index m.
      let (value, h) = host.get_storage msg.recipient index m.host in
      with_push value (record m { host = h }) λ m. next m
  execute_case case_sstore m = with_pop m λ index m. with_pop m λ value m.
      elim (host.set_storage msg.recipient index value m.host) [
        | none ↦ fault
        | some (status, h) ↦ next (record m { host = h })
      ]
  execute_case case_msize m = with_push (to_uint256 m.memory.size) m λ m. next m
  execute_case (case_push n) m =
      if leb (m.pc + 1 + n) (length code)
      then (let bytes = replicate (32 - n) 0 ++ take n (drop (m.pc + 1) code) in
          with_push (word_of_bytes bytes) (record m { pc = m.pc + n }) λ m. next m)
      else fault
  execute_case case_dup1 m =
      with_pop m λ value m. with_push value m λ m. with_push value m λ m. next m
  execute_case case_call m = do_call m
  execute_case case_return m = return_region StatusCode.success m
  execute_case case_revert m =
      if ltb (revision_value rev) (revision_value Revision.byzantium)
      then failed StatusCode.undefined_instruction m
      else return_region StatusCode.revert m

  -- The body of the loop, at a byte of the code.
  unfoldable pub round : ℕ → Machine S → Step S
  unfolding execute_case case_of
  round b m =
      let m = record m { gas_left = minus_one m.gas_left } in
      if is_negative m.gas_left then failed StatusCode.out_of_gas m else execute_case (case_of b) m

  abbrev pub after_round : (Machine S → Outcome S) → Step S → Outcome S
  after_round loop (next m) = loop (record m { pc = m.pc + 1 })
  after_round loop (returned status gas output size h) = finished status gas output size h
  after_round loop fault = faulted

  -- The loop, with fuel for a round at each byte of the code.
  unfoldable pub execute_loop : ℕ → Machine S → Outcome S
  unfolding round
  execute_loop zero m = out_of_fuel
  execute_loop (suc fuel) m = elim (get_elem? code m.pc) [
    | none ↦ finished StatusCode.success m.gas_left [] 0 m.host
    | some b ↦ after_round (execute_loop fuel) (round b m)
  ]

  abbrev pub start : S → Machine S
  start h = record { pc = 0; gas_left = msg.gas; stack = []; memory = empty_memory; host = h }

  unfoldable pub execute : S → Outcome S
  unfolding execute_loop
  execute h = execute_loop (suc (length code)) (start h)
