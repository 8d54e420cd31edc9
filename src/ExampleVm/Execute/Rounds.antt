-- ===== src/ExampleVm/Execute/Rounds.antt =====
-- What a round of the example VM keeps, whatever the case.
use evmc.Base.{
  ℕ, ◌+◌, ◌-◌, ◌≤◌, ◌≡◌, ◌⊎◌, refl, sym, Bool, true, false, Option, none, some, List, [], ◌∷◌, ◌++◌,
  length, replicate, take, drop, ltb, leb, if◌then◌else◌, arith, inl, inr,
}
use evmc.Base.Int.{ℤ, pos}
use evmc.Base.Words.{bytes_of_word, word_of_bytes}
use evmc.Evmc.{StatusCode, Revision, revision_value}
use evmc.Evmc.Messages.{Message, EvmcResult}
use evmc.Evmc.Host.{HostInterface}
use evmc.ExampleVm.Memory.{Memory, Stack, stack_limit, push, expand, store, region, to_uint32}
use evmc.ExampleVm.Memory.Laws.{IsMemory, expand-IsMemory, region-length, store-IsMemory}
use evmc.ExampleVm.Machine.{
  Machine, Step, next, returned, fault, failed, Case, case_stop, case_add, case_address,
  case_calldataload, case_number, case_mstore, case_sload, case_sstore, case_msize, case_dup1,
  case_call, case_return, case_revert, case_default, case_push,
}
use evmc.ExampleVm.Execute.{return_region, call_returned, do_call, execute_case}

-- The stack and the memory are within their arrays.
abbrev pub IsMachine : {S : Type 0} → Machine S → Type 0
IsMachine m = (length m.stack ≤ stack_limit) × IsMemory m.memory

-- From the machine `m`: the next round is at the same place or later, with the same gas and a stack
-- and a memory within their arrays; a result has the gas left on success and on revert and none
-- otherwise, and its output has the size that is given with it.
abbrev pub Keeps : {S : Type 0} → Machine S → Step S → Type 0
Keeps m (next m') = (m.pc ≤ m'.pc) × (m'.gas_left ≡ m.gas_left) × IsMachine m'
Keeps m (returned StatusCode.success gas output size h) =
    (gas ≡ m.gas_left) × (size ≡ length output)
Keeps m (returned StatusCode.revert gas output size h) = (gas ≡ m.gas_left) × (size ≡ length output)
Keeps m (returned status gas output size h) = (gas ≡ pos 0) × (size ≡ length output)
Keeps m fault = Unit

module _ {S : Type 0} (m0 : Machine S) where
  option-Keeps :
      {A : Type 0} (o : Option A) (missing : Step S) (k : A → Step S)
      → Keeps m0 missing
      → ((a : A) → o ≡ some a → Keeps m0 (k a))
      → Keeps m0 (elim o [ none ↦ missing | some a ↦ k a ])
  option-Keeps none missing k h each = h
  option-Keeps (some a) missing k h each = each a refl

  pop-Keeps :
      (s : Stack) (k : ℕ → Stack → Step S)
      → length s ≤ stack_limit
      → ((value : ℕ) (stack : Stack) → length stack ≤ stack_limit → Keeps m0 (k value stack))
      → Keeps m0 (elim s [ [] ↦ fault | value ∷ stack ↦ k value stack ])
  pop-Keeps [] k ok each = tt
  pop-Keeps (value ∷ stack) k ok each = each value stack (omega arith)

  push-Keeps :
      (value : ℕ) (s : Stack) (k : Stack → Step S)
      → ((stack : Stack) → length stack ≤ stack_limit → Keeps m0 (k stack))
      → Keeps m0 (elim (push value s) [ none ↦ fault | some stack ↦ k stack ])
  push-Keeps value s k each =
      option-Keeps (push value s) fault k tt (λ stack e. each stack (ground (arith, e)))

  bool-Keeps : (b : Bool) (x y : Step S) → Keeps m0 x → Keeps m0 y → Keeps m0 (if b then x else y)
  bool-Keeps true x y hx hy = hx
  bool-Keeps false x y hx hy = hy

  store-Keeps :
      (offset : ℕ) (value : List ℕ) (memory : Memory) (k : Bool × Memory → Step S)
      → IsMemory memory
      → ((r : Bool × Memory) → IsMemory r.1 → Keeps m0 (k r))
      → Keeps m0 (elim (store offset value memory) [ none ↦ fault | some r ↦ k r ])
  store-Keeps offset value memory k ok each =
      option-Keeps (store offset value memory) fault k tt
        λ r e. each r (store-IsMemory offset value memory r.1 r.0 ok e)

module _ {S : Type 0} (host : HostInterface S) (read : EvmcResult → S → List ℕ)
    (release : EvmcResult → S → S) (data_address : ℕ) (rev : Revision) (msg : Message)
    (input code : List ℕ) where
  -- The machine after an expansion, and after a store, of its memory.
  return_region-Keeps :
      (status : StatusCode) (m : Machine S)
      → (status ≡ StatusCode.success) ⊎ (status ≡ StatusCode.revert)
      → IsMachine m
      → Keeps m (return_region host read release data_address rev msg input code status m)
  unfolding return_region
  return_region-Keeps status m which (stack, memory) = pop-Keeps m m.stack _ stack λ offset s h.
      pop-Keeps m s _ h λ size s h.
        let made = expand (to_uint32 offset) (to_uint32 size) m.memory in
        option-Keeps m made.0 _ _ (refl, refl)
          λ p e. option-Keeps m (region p (to_uint32 size) made.1) _ _ tt λ output e.
            let length_is =
              region-length p (to_uint32 size) made.1 output
                (expand-IsMemory (to_uint32 offset) (to_uint32 size) m.memory memory) e in
            returns status m.gas_left output (to_uint32 size) which length_is
    where
      returns :
          (status : StatusCode) (gas : ℤ) (output : List ℕ) (size : ℕ)
          → (status ≡ StatusCode.success) ⊎ (status ≡ StatusCode.revert)
          → length output ≡ size
          → Keeps m (returned status m.gas_left output size m.host)
      returns StatusCode.success gas output size which e = (refl, sym e)
      returns StatusCode.revert gas output size which e = (refl, sym e)
      returns status gas output size which e = ground arith

  call_returned-Keeps :
      (m0 m : Machine S) (offset size : ℕ) (result : EvmcResult)
      → m0.pc ≤ m.pc
      → m.gas_left ≡ m0.gas_left
      → IsMachine m
      → Keeps m0
          (call_returned host read release data_address rev msg input code offset size result m)
  unfolding call_returned
  call_returned-Keeps m0 m offset size result pc gas (stack, memory) =
      push-Keeps m0 _ m.stack _ λ s h. store-Keeps m0 offset _ m.memory _ memory λ r kept.
        option-Keeps m0 result.release _ _ (pc, gas, (h, kept)) λ f e. (pc, gas, (h, kept))

  do_call-Keeps :
      (m : Machine S)
      → IsMachine m
      → Keeps m (do_call host read release data_address rev msg input code m)
  unfolding do_call
  do_call-Keeps m (stack, memory) = pop-Keeps m m.stack _ stack λ gas s h.
      pop-Keeps m s _ h λ recipient s h. pop-Keeps m s _ h λ value s h.
        pop-Keeps m s _ h λ input_offset s h. pop-Keeps m s _ h λ input_size s h.
          let m1 = expand (to_uint32 input_offset) (to_uint32 input_size) m.memory in
          let ok1 =
            expand-IsMemory (to_uint32 input_offset) (to_uint32 input_size) m.memory memory in
          pop-Keeps m s _ h λ output_offset s h. pop-Keeps m s _ h λ output_size s h.
            let m2 = expand (to_uint32 output_offset) (to_uint32 output_size) m1.1 in
            let ok2 = expand-IsMemory (to_uint32 output_offset) (to_uint32 output_size) m1.1 ok1 in
            option-Keeps m m1.0 _ _ (refl, refl)
              λ p e.
                option-Keeps m m2.0 _ _ (refl, refl)
                  λ q e. option-Keeps m (region p (to_uint32 input_size) m2.1) _ _ tt λ bytes e.
                    call_returned-Keeps m _ (to_uint32 output_offset) (to_uint32 output_size) _
                      (omega arith) refl (h, ok2)

  abbrev run : Case → Machine S → Step S
  run = execute_case host read release data_address rev msg input code

  -- Every case keeps the arrays within their bounds, and answers with the gas that is left or none.
  pub execute_case-Keeps : (c : Case) (m : Machine S) → IsMachine m → Keeps m (run c m)
  unfolding execute_case
  execute_case-Keeps case_default m ok = (refl, refl)
  execute_case-Keeps case_stop m ok = (refl, refl)
  execute_case-Keeps case_add m (stack, memory) =
      pop-Keeps m m.stack _ stack λ a s h.
        pop-Keeps m s _ h λ b s h. push-Keeps m _ s _ λ s h. (omega arith, refl, (h, memory))
  execute_case-Keeps case_address m (stack, memory) =
      push-Keeps m _ m.stack _ λ s h. (omega arith, refl, (h, memory))
  execute_case-Keeps case_calldataload m (stack, memory) =
      pop-Keeps m m.stack _ stack
        λ a s h. push-Keeps m _ s _ λ s h. (omega arith, refl, (h, memory))
  execute_case-Keeps case_number m (stack, memory) =
      push-Keeps m _ m.stack _ λ s h. (omega arith, refl, (h, memory))
  execute_case-Keeps case_mstore m (stack, memory) = pop-Keeps m m.stack _ stack λ index s h.
      pop-Keeps m s _ h λ value s h.
        store-Keeps m (to_uint32 index) (bytes_of_word 32 value) m.memory _ memory
          λ r kept. bool-Keeps m r.0 _ _ (omega arith, refl, (h, kept)) (refl, refl)
  execute_case-Keeps case_sload m (stack, memory) =
      pop-Keeps m m.stack _ stack
        λ index s h. push-Keeps m _ s _ λ s h. (omega arith, refl, (h, memory))
  execute_case-Keeps case_sstore m (stack, memory) = pop-Keeps m m.stack _ stack λ index s h.
      pop-Keeps m s _ h λ value s h.
        option-Keeps m (host.set_storage msg.recipient index value m.host) fault _ tt
          λ r e. (omega arith, refl, (h, memory))
  execute_case-Keeps case_msize m (stack, memory) =
      push-Keeps m _ m.stack _ λ s h. (omega arith, refl, (h, memory))
  execute_case-Keeps (case_push n) m (stack, memory) =
      bool-Keeps m (leb (m.pc + 1 + n) (length code)) _ fault
        (push-Keeps m (word_of_bytes (replicate (32 - n) 0 ++ take n (drop (m.pc + 1) code)))
          m.stack (λ s. next (record m { pc = m.pc + n; stack = s }))
          λ s h. (omega arith, refl, (h, memory)))
        tt
  execute_case-Keeps case_dup1 m (stack, memory) = pop-Keeps m m.stack _ stack λ value s h.
      push-Keeps m _ s _ λ s h. push-Keeps m _ s _ λ s h. (omega arith, refl, (h, memory))
  execute_case-Keeps case_call m ok = do_call-Keeps m ok
  execute_case-Keeps case_return m ok = return_region-Keeps StatusCode.success m (inl refl) ok
  execute_case-Keeps case_revert m ok =
      bool-Keeps m (ltb (revision_value rev) (revision_value Revision.byzantium))
        (failed StatusCode.undefined_instruction m)
        (return_region host read release data_address rev msg input code StatusCode.revert m)
        (refl, refl) (return_region-Keeps StatusCode.revert m (inr refl) ok)
