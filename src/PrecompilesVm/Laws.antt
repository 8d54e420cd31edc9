-- ===== src/PrecompilesVm/Laws.antt =====
-- The contract of a code address, and the identity contract.
use evmc.Base.{
  ℕ, zero, suc, ◌+◌, ◌-◌, ◌*◌, ◌/◌, ◌%◌, ◌^◌, ◌<◌, ◌≡◌, ◌⊎◌, inl, inr, refl, sym, ap, ◌∙◌, Bool,
  true, false, not, ◌||◌, some, List, [], ◌∷◌, ◌++◌, take, length, ltb, leb, Bool-cases, ◌==◌,
  if◌then◌else◌, arith,
}
use evmc.Base.Bits.{bit_or-shifted}
use evmc.Base.Int.{ℤ, pos, negsuc, lt_ℤ, sub_ℕ}
use evmc.Base.Words.{bytes_of_word}
use evmc.Evmc.{StatusCode, Revision}
use evmc.Evmc.Messages.{Message, EvmcResult}
use evmc.Helpers.Result.{Heap, zeroed_result}
use evmc.PrecompilesVm.{
  gas_cost, execute_identity, any_nonzero, contract_id, byte_at, execute_contract, execute,
  prefix_size,
}

any-append : (xs ys : List ℕ) → any_nonzero (xs ++ ys) ≡ (any_nonzero xs || any_nonzero ys)
unfolding any_nonzero
any-append [] ys = refl
any-append (x ∷ xs) ys = ground (arith, any-append xs ys)

any-bytes_of_word : (n w : ℕ) → w < 256 ^ n → any_nonzero (bytes_of_word n w) ≡ not (w == 0)
unfolding bytes_of_word any_nonzero
any-bytes_of_word zero w h = ground arith
any-bytes_of_word (suc n) w h =
    let power : 256 ^ suc n ≡ 256 ^ n * 256 = omega arith in
    any-append (bytes_of_word n (w / 2 ^ 8)) (w % 2 ^ 8 ∷ [])
    ∙ ground (arith, any-bytes_of_word n (w / 2 ^ 8) (omega (arith, power)))

prefix_is : (w : ℕ) → take prefix_size (bytes_of_word 20 w) ≡ bytes_of_word 18 (w / 2 ^ 8 / 2 ^ 8)
unfolding bytes_of_word
prefix_is w = refl

id_is : (w : ℕ) → contract_id (bytes_of_word 20 w) ≡ w % 2 ^ 16
unfolding contract_id byte_at bytes_of_word
id_is w = bit_or-shifted 8 (w / 2 ^ 8 % 2 ^ 8) (w % 2 ^ 8) (omega arith) ∙ omega arith

take_all : (xs : List ℕ) → take (length xs) xs ≡ xs
take_all [] = refl
take_all (x ∷ xs) = ap (x ∷◌) (take_all xs)

module _ (new_array : Heap → ℕ → ℕ) (delete_output : ℕ) where
  -- A code address, of 160 bits: up to 0xffff the contract of that number is executed, any other
  -- address is rejected.
  pub execute-contract :
      (rev : Revision) (msg : Message) (input : List ℕ) (heap : Heap)
      → msg.code_address < 256 ^ 20
      → execute new_array delete_output rev msg input heap ≡ (
          if ltb msg.code_address (2 ^ 16)
          then execute_contract new_array delete_output msg.code_address rev msg input heap
          else (record zeroed_result { status_code = StatusCode.rejected }, heap))
  unfolding execute
  execute-contract rev msg input heap h =
      let w = msg.code_address in
      let tested : any_nonzero (take prefix_size (bytes_of_word 20 w))
          ≡ not (w / 2 ^ 8 / 2 ^ 8 == 0) =
        ap any_nonzero (prefix_is w) ∙ any-bytes_of_word 18 (w / 2 ^ 8 / 2 ^ 8) (omega arith) in
      let run : Bool → ℕ → EvmcResult × Heap = λ b id.
        if b
        then (record zeroed_result { status_code = StatusCode.rejected }, heap)
        else execute_contract new_array delete_output id rev msg input heap in
      let target : Bool → EvmcResult × Heap = λ b.
        if b
        then execute_contract new_array delete_output w rev msg input heap
        else (record zeroed_result { status_code = StatusCode.rejected }, heap) in
      let bytes = bytes_of_word 20 w in
      elim (Bool-cases (ltb w (2 ^ 16))) [
        | inl small ↦
            let zero : not (w / 2 ^ 8 / 2 ^ 8 == 0) ≡ false = ground arith in
            let whole : w % 2 ^ 16 ≡ w = ground arith in
            ap (λ b. run b (contract_id bytes)) (tested ∙ zero)
            ∙ ap (run false) (id_is w ∙ whole)
            ∙ sym (ap target small)
        | inr large ↦
            let nonzero : not (w / 2 ^ 8 / 2 ^ 8 == 0) ≡ true = ground arith in
            ap (λ b. run b (contract_id bytes)) (tested ∙ nonzero) ∙ sym (ap target large)
      ]

  -- What `execute_identity` answers with for the gas that would be left, which is `below` 0 or not.
  abbrev answer : Message → List ℕ → Heap → Bool → ℤ → EvmcResult × Heap
  answer msg input heap below gas_left =
      if below then (record zeroed_result { status_code = StatusCode.out_of_gas }, heap) else (
        record zeroed_result {
          status_code = StatusCode.success;
          output_data = some (new_array heap msg.input_size);
          output_size = msg.input_size;
          release = some delete_output;
          gas_left = gas_left;
        },
        (new_array heap msg.input_size, take msg.input_size input) ∷ heap,
      )

  -- The identity contract, for a message with `gas`: where the gas is not enough the result is out of
  -- gas and no memory is taken; else it has the gas that is left, and its output is a new block that
  -- holds the input.
  pub execute_identity_lem :
      (gas : ℕ) (msg : Message) (input : List ℕ) (heap : Heap)
      → msg.gas ≡ pos gas
      → length input ≡ msg.input_size
      → let r = execute_identity new_array delete_output msg input heap in
        ((gas < gas_cost msg.input_size)
          × (r.0.status_code ≡ StatusCode.out_of_gas)
          × (r.0.gas_left ≡ pos 0)
          × (r.1 ≡ heap))
        ⊎ ((left : ℕ) × (gas ≡ left + gas_cost msg.input_size)
            × (r.0.status_code ≡ StatusCode.success)
            × (r.0.gas_left ≡ pos left)
            × (r.0.output_size ≡ length input)
            × (r.0.release ≡ some delete_output)
            × (block : ℕ) × (r.0.output_data ≡ some block)
            × (r.1 ≡ (block, input) ∷ heap))
  unfolding execute_identity
  execute_identity_lem gas msg input heap gas_is size =
      let cost = gas_cost msg.input_size in
      elim (Bool-cases (leb cost gas)) [
        | inl enough ↦
            let left_is : sub_ℕ msg.gas cost ≡ pos (gas - cost) =
              ap (λ g. sub_ℕ g cost) gas_is
              ∙ ap (λ b. if b then pos (gas - cost) else negsuc (cost - gas - 1)) enough in
            let left_over : lt_ℤ (pos (gas - cost)) (pos 0) ≡ false = ground arith in
            let made : execute_identity new_array delete_output msg input heap
                ≡ answer msg input heap false (pos (gas - cost)) =
              ap (λ g. answer msg input heap (lt_ℤ g (pos 0)) g) left_is
              ∙ ap (λ b. answer msg input heap b (pos (gas - cost))) left_over in
            let copied : take msg.input_size input ≡ input = rw (← size) (take_all input) in
            let sum : gas ≡ gas - cost + cost = ground arith in
            inr (
              gas - cost,
              sum,
              ap (λ (r : EvmcResult × Heap). r.0.status_code) made,
              ap (λ (r : EvmcResult × Heap). r.0.gas_left) made,
              ap (λ (r : EvmcResult × Heap). r.0.output_size) made ∙ sym size,
              ap (λ (r : EvmcResult × Heap). r.0.release) made,
              new_array heap msg.input_size,
              ap (λ (r : EvmcResult × Heap). r.0.output_data) made,
              ap (λ (r : EvmcResult × Heap). r.1) made
                  ∙ ap (λ (bytes : List ℕ). (new_array heap msg.input_size, bytes) ∷ heap) copied,
            )
        | inr short ↦
            let left_is : sub_ℕ msg.gas cost ≡ negsuc (cost - gas - 1) =
              ap (λ g. sub_ℕ g cost) gas_is
              ∙ ap (λ b. if b then pos (gas - cost) else negsuc (cost - gas - 1)) short in
            let made : execute_identity new_array delete_output msg input heap
                ≡ answer msg input heap true (negsuc (cost - gas - 1)) =
              ap (λ g. answer msg input heap (lt_ℤ g (pos 0)) g) left_is in
            let below : gas < cost = ground arith in
            inl (
              below,
              ap (λ (r : EvmcResult × Heap). r.0.status_code) made,
              ap (λ (r : EvmcResult × Heap). r.0.gas_left) made,
              ap (λ (r : EvmcResult × Heap). r.1) made,
            )
      ]
