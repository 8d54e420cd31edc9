-- ===== src/ExampleVm/Execute/Runs.antt =====
-- What single instructions of the example VM do in the loop.
use evmc.Base.{
  ℕ, zero, suc, ◌+◌, ◌-◌, ◌<◌, ◌≡◌, refl, ap, ◌∙◌, Bool, true, Option, none, some, List, [], ◌∷◌,
  ◌++◌, length, length-append, length-drop, lt_of_get_elem?, take, drop, drop_sum, replicate,
  get_elem?, ltb, leb, if◌then◌else◌, arith,
}
use evmc.Base.Int.{pos}
use evmc.Base.Words.{word_of_bytes, bytes_of_word}
use evmc.Evmc.{StatusCode, Revision}
use evmc.Evmc.Messages.{Message, EvmcResult}
use evmc.Evmc.Host.{HostInterface}
use evmc.MockedHost.Types.{StorageStatus}
use evmc.ExampleVm.Memory.{Stack, stack_limit, Memory, store, region, expand, to_uint32}
use evmc.ExampleVm.Machine.{
  Machine, Step, next, returned, fault, failed, with_push, case_of, case_push,
}
use evmc.ExampleVm.Execute.{
  Outcome, finished, execute_case, return_region, round, execute_loop, after_round,
}

get_elem?_of_drop :
    (xs : List ℕ) (i x : ℕ) (ys : List ℕ) → drop i xs ≡ x ∷ ys → get_elem? xs i ≡ some x
get_elem?_of_drop [] zero x ys h = absurd (cc h)
get_elem?_of_drop [] (suc i) x ys h = absurd (cc h)
get_elem?_of_drop (a ∷ xs) zero x ys h = cc h
get_elem?_of_drop (a ∷ xs) (suc i) x ys h = get_elem?_of_drop xs i x ys h

drop_before : (before ys : List ℕ) → drop (length before) (before ++ ys) ≡ ys
drop_before [] ys = refl
drop_before (x ∷ before) ys = drop_before before ys

get_elem?_of_end : (xs : List ℕ) (i : ℕ) → drop i xs ≡ [] → get_elem? xs i ≡ none
get_elem?_of_end [] i h = refl
get_elem?_of_end (a ∷ xs) zero h = absurd (cc h)
get_elem?_of_end (a ∷ xs) (suc i) h = get_elem?_of_end xs i h

-- A place later in a list, seen from an earlier one.
drop_later :
    (xs before : List ℕ) (k i : ℕ) (ys : List ℕ)
    → drop i xs ≡ before ++ ys
    → k ≡ i + length before
    → drop k xs ≡ ys
drop_later xs before k i ys h e =
    drop_sum k i (length before) xs e ∙ ap (drop (length before)) h ∙ drop_before before ys

pub take_before : (before ys : List ℕ) → take (length before) (before ++ ys) ≡ before
take_before [] ys = refl
take_before (x ∷ before) ys = ap (x ∷◌) (take_before before ys)

module _ {S : Type 0} where
  with_push_room :
      (value : ℕ) (m : Machine S)
      → length m.stack < stack_limit
      → with_push value m (λ m. next m) ≡ next (record m { stack = value ∷ m.stack })
  with_push_room value m room =
      let pushed : ltb (length m.stack) stack_limit ≡ true = ground arith in
      let found : Option Stack → Step S =
        λ o. elim o [ none ↦ fault | some stack ↦ next (record m { stack = stack }) ] in
      ap (λ b. found (if b then some (value ∷ m.stack) else none)) pushed

module _ {S : Type 0} (host : HostInterface S) (read : EvmcResult → S → List ℕ)
    (release : EvmcResult → S → S) (data_address : ℕ) (rev : Revision) (msg : Message)
    (input code : List ℕ) where
  abbrev loop : ℕ → Machine S → Outcome S
  loop = execute_loop host read release data_address rev msg input code

  abbrev run : ℕ → Machine S → Step S
  run b = execute_case host read release data_address rev msg input code (case_of b)

  abbrev pub at : ℕ → ℕ → Stack → Memory → S → Machine S
  at pc gas stack memory h = record {
    pc = pc;
    gas_left = pos gas;
    stack = stack;
    memory = memory;
    host = h;
  }

  -- A round with gas, at a byte of the code.
  loop_round :
      (fuel pc gas b : ℕ) (rest : List ℕ) (stack : Stack) (memory : Memory) (h : S)
      → drop pc code ≡ b ∷ rest
      → loop (suc fuel) (at pc (suc gas) stack memory h)
        ≡ after_round host read release data_address rev msg input code
            (loop fuel)
            (run b (at pc gas stack memory h))
  unfolding execute_loop round
  loop_round fuel pc gas b rest stack memory h e =
      rw (get_elem?_of_drop code pc b rest e, execute_loop) refl

  pub loop_end :
      (fuel pc gas : ℕ) (stack : Stack) (memory : Memory) (h : S)
      → drop pc code ≡ []
      → loop (suc fuel) (at pc gas stack memory h) ≡ finished StatusCode.success (pos gas) [] 0 h
  unfolding execute_loop
  loop_end fuel pc gas stack memory h e = rw (get_elem?_of_end code pc e, execute_loop) refl

  pub loop_push :
      (fuel pc pc' gas op : ℕ) (bytes rest : List ℕ) (stack : Stack) (memory : Memory) (h : S)
      → drop pc code ≡ op ∷ (bytes ++ rest)
      → case_of op ≡ case_push (length bytes)
      → length stack < stack_limit
      → pc' ≡ pc + 1 + length bytes
      → (loop (suc fuel) (at pc (suc gas) stack memory h)
          ≡ loop fuel (
              at pc' gas
                (word_of_bytes (replicate (32 - length bytes) 0 ++ bytes) ∷ stack)
                memory
                h))
        × (drop pc' code ≡ rest)
  unfolding execute_case
  loop_push fuel pc pc' gas op bytes rest stack memory h e op_is room pc_is =
      let after : drop (pc + 1) code ≡ bytes ++ rest =
        drop_later code (op ∷ []) (pc + 1) pc (bytes ++ rest) e (omega arith) in
      let bytes_are : take (length bytes) (drop (pc + 1) code) ≡ bytes =
        ap (take (length bytes)) after ∙ take_before bytes rest in
      let within : leb (pc + 1 + length bytes) (length code) ≡ true = ground (
        arith,
        length-drop (pc + 1) code,
        ap length after,
        length-append bytes rest,
        lt_of_get_elem? code pc op (get_elem?_of_drop code pc op (bytes ++ rest) e),
      ) in
      let value = word_of_bytes (replicate (32 - length bytes) 0 ++ bytes) in
      let pushes : run op (at pc gas stack memory h)
          ≡ next (at (pc + length bytes) gas (value ∷ stack) memory h) =
        rw (op_is, execute_case)
          (rw within (
            rw bytes_are
              (with_push_room value (at (pc + length bytes) gas stack memory h) room))) in
      (
        loop_round fuel pc gas op (bytes ++ rest) stack memory h e
            ∙ ap (after_round host read release data_address rev msg input code (loop fuel)) pushes
            ∙ ap (λ p. loop fuel (at p gas (value ∷ stack) memory h)) (omega arith),
        drop_later code (op ∷ bytes) pc' pc rest e (omega arith),
      )

  pub loop_sload :
      (fuel pc gas key value : ℕ) (rest : List ℕ) (stack : Stack) (memory : Memory) (h h' : S)
      → drop pc code ≡ 84 ∷ rest
      → length stack < stack_limit
      → host.get_storage msg.recipient key h ≡ (value, h')
      → (loop (suc fuel) (at pc (suc gas) (key ∷ stack) memory h)
          ≡ loop fuel (at (pc + 1) gas (value ∷ stack) memory h'))
        × (drop (pc + 1) code ≡ rest)
  unfolding execute_case case_of
  loop_sload fuel pc gas key value rest stack memory h h' e room made =
      let loads : run 84 (at pc gas (key ∷ stack) memory h)
          ≡ next (at pc gas (value ∷ stack) memory h') =
        rw made (with_push_room value (at pc gas stack memory h') room) in
      (
        loop_round fuel pc gas 84 rest (key ∷ stack) memory h e
            ∙ ap (after_round host read release data_address rev msg input code (loop fuel)) loads,
        drop_later code (84 ∷ []) (pc + 1) pc rest e (omega arith),
      )

  pub loop_sstore :
      (fuel pc gas key value : ℕ) (rest : List ℕ) (stack : Stack) (memory : Memory) (h h' : S)
      (status : StorageStatus)
      → drop pc code ≡ 85 ∷ rest
      → host.set_storage msg.recipient key value h ≡ some (status, h')
      → (loop (suc fuel) (at pc (suc gas) (key ∷ value ∷ stack) memory h)
          ≡ loop fuel (at (pc + 1) gas stack memory h'))
        × (drop (pc + 1) code ≡ rest)
  unfolding execute_case case_of
  loop_sstore fuel pc gas key value rest stack memory h h' status e made =
      let stores : run 85 (at pc gas (key ∷ value ∷ stack) memory h)
          ≡ next (at pc gas stack memory h') =
        rw made refl in
      (
        loop_round fuel pc gas 85 rest (key ∷ value ∷ stack) memory h e
            ∙ ap (after_round host read release data_address rev msg input code (loop fuel)) stores,
        drop_later code (85 ∷ []) (pc + 1) pc rest e (omega arith),
      )

  pub loop_mstore :
      (fuel pc gas offset value : ℕ) (rest : List ℕ) (stack : Stack) (memory memory' : Memory)
      (h : S)
      → drop pc code ≡ 82 ∷ rest
      → store (to_uint32 offset) (bytes_of_word 32 value) memory ≡ some (true, memory')
      → (loop (suc fuel) (at pc (suc gas) (offset ∷ value ∷ stack) memory h)
          ≡ loop fuel (at (pc + 1) gas stack memory' h))
        × (drop (pc + 1) code ≡ rest)
  unfolding execute_case case_of
  loop_mstore fuel pc gas offset value rest stack memory memory' h e made =
      let step : Option (Bool × Memory) → Step S = λ o. elim o [
        | none ↦ fault
        | some (stored, memory) ↦
            if stored
            then next (at pc gas stack memory h)
            else failed StatusCode.failure (at pc gas stack memory h)
      ] in
      let stores : run 82 (at pc gas (offset ∷ value ∷ stack) memory h)
          ≡ next (at pc gas stack memory' h) =
        ap step made in
      (
        loop_round fuel pc gas 82 rest (offset ∷ value ∷ stack) memory h e
            ∙ ap (after_round host read release data_address rev msg input code (loop fuel)) stores,
        drop_later code (82 ∷ []) (pc + 1) pc rest e (omega arith),
      )

  pub loop_return :
      (fuel pc gas offset size : ℕ) (rest output : List ℕ) (stack : Stack) (memory memory' : Memory)
      (h : S)
      → drop pc code ≡ 243 ∷ rest
      → expand (to_uint32 offset) (to_uint32 size) memory ≡ (some (to_uint32 offset), memory')
      → region (to_uint32 offset) (to_uint32 size) memory' ≡ some output
      → loop (suc fuel) (at pc (suc gas) (offset ∷ size ∷ stack) memory h)
        ≡ finished StatusCode.success (pos gas) output (to_uint32 size) h
  unfolding execute_case case_of return_region
  loop_return fuel pc gas offset size rest output stack memory memory' h e expanded read_is =
      let of_bytes : Option (List ℕ) → Step S = λ o. elim o [
        | none ↦ fault
        | some output ↦ returned StatusCode.success (pos gas) output (to_uint32 size) h
      ] in
      let of_pointer : Option ℕ × Memory → Step S = λ r. elim (r.0) [
        | none ↦ failed StatusCode.failure (at pc gas stack memory h)
        | some p ↦ of_bytes (region p (to_uint32 size) (r.1))
      ] in
      let returns : run 243 (at pc gas (offset ∷ size ∷ stack) memory h)
          ≡ returned StatusCode.success (pos gas) output (to_uint32 size) h =
        ap of_pointer expanded ∙ ap of_bytes read_is in
      loop_round fuel pc gas 243 rest (offset ∷ size ∷ stack) memory h e
      ∙ ap (after_round host read release data_address rev msg input code (loop fuel)) returns
