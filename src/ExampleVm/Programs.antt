-- ===== src/ExampleVm/Programs.antt =====
-- Two programs for the example VM, on any host: a write to the storage, and a read from it.
pub mod Mocked
use evmc.Base.{
  ℕ, zero, suc, ◌+◌, ◌-◌, ◌^◌, ◌≤◌, ◌<◌, ◌≡◌, refl, sym, ap, ◌∙◌, Bool, true, false, Option, none,
  some, List, [], ◌∷◌, ◌++◌, length, length-append, take, drop, replicate, ltb, leb, if◌then◌else◌,
  arith,
}
use evmc.Base.Int.{ℤ, pos}
use evmc.Base.Words.{
  word_of_bytes, bytes_of_word, length-bytes_of_word, word_of_bytes-bytes_of_word,
}
use evmc.Evmc.{StatusCode, Revision}
use evmc.Evmc.Messages.{Message, EvmcResult}
use evmc.Evmc.Host.{HostInterface}
use evmc.MockedHost.Types.{StorageStatus}
use evmc.ExampleVm.Memory.{Stack, stack_limit, Memory, empty_memory, store, region, expand}
use evmc.ExampleVm.Machine.{Machine, case_of, case_push}
use evmc.ExampleVm.Execute.{Outcome, finished, execute_loop, execute, start}
use evmc.ExampleVm.Execute.Runs.{
  at, loop_end, loop_push, loop_sload, loop_sstore, loop_mstore, loop_return, take_before,
}

-- PUSH32 value PUSH32 key SSTORE
abbrev pub store_program : ℕ → ℕ → List ℕ
store_program key value =
    127 ∷ (bytes_of_word 32 value ++ (127 ∷ (bytes_of_word 32 key ++ (85 ∷ []))))

-- PUSH32 key SLOAD PUSH1 0 MSTORE PUSH1 32 PUSH1 0 RETURN
abbrev pub load_program : ℕ → List ℕ
load_program key = 127 ∷ (bytes_of_word 32 key ++ (84 ∷ 96 ∷ 0 ∷ 82 ∷ 96 ∷ 32 ∷ 96 ∷ 0 ∷ 243 ∷ []))

abbrev pub IsWord : ℕ → Type 0
IsWord w = w < 256 ^ 32

is_push32 : (bytes : List ℕ) → length bytes ≡ 32 → case_of 127 ≡ case_push (length bytes)
unfolding case_of
is_push32 bytes e = ap case_push (sym e)

is_push1 : case_of 96 ≡ case_push 1
unfolding case_of
is_push1 = refl

-- The memory with a word at its start.
abbrev stored_word : ℕ → Memory
stored_word value = record {
  size = 32;
  bytes = bytes_of_word 32 value ++ drop 32 empty_memory.bytes;
}

store-word :
    (value : ℕ) → store 0 (bytes_of_word 32 value) empty_memory ≡ some (true, stored_word value)
unfolding store expand bytes_of_word
store-word value = refl

expand-stored_word : (value : ℕ) → expand 0 32 (stored_word value) ≡ (some 0, stored_word value)
unfolding expand
expand-stored_word value = refl

region-stored_word : (value : ℕ) → region 0 32 (stored_word value) ≡ some (bytes_of_word 32 value)
unfolding region bytes_of_word
region-stored_word value = refl

module _ {S : Type 0} (host : HostInterface S) (read : EvmcResult → S → List ℕ)
    (release : EvmcResult → S → S) (data_address : ℕ) (rev : Revision) (msg : Message)
    (input : List ℕ) where
  abbrev loop : List ℕ → ℕ → Machine S → Outcome S
  loop code = execute_loop host read release data_address rev msg input code

  abbrev here : List ℕ → ℕ → ℕ → Stack → Memory → S → Machine S
  here code = at host read release data_address rev msg input code

  execute_from_start :
      (code : List ℕ) (size gas : ℕ) (h : S)
      → length code ≡ size
      → msg.gas ≡ pos gas
      → execute host read release data_address rev msg input code h
        ≡ loop code (suc size) (here code 0 gas [] empty_memory h)
  unfolding execute
  execute_from_start code size gas h size_is gas_is =
      let from : ℤ → Machine S =
        λ g. record { pc = 0; gas_left = g; stack = []; memory = empty_memory; host = h } in
      ap (λ n. loop code (suc n) (from msg.gas)) size_is
      ∙ ap (λ g. loop code (suc size) (from g)) gas_is

  loop_push32 :
      (code : List ℕ) (fuel pc gas w : ℕ) (rest : List ℕ) (stack : Stack) (memory : Memory) (h : S)
      → drop pc code ≡ 127 ∷ (bytes_of_word 32 w ++ rest)
      → IsWord w
      → length stack < stack_limit
      → (loop code (suc fuel) (here code pc (suc gas) stack memory h)
          ≡ loop code fuel (here code (pc + 33) gas (w ∷ stack) memory h))
        × (drop (pc + 33) code ≡ rest)
  loop_push32 code fuel pc gas w rest stack memory h e word room =
      let bytes = bytes_of_word 32 w in
      let size = length-bytes_of_word 32 w in
      let made =
        loop_push host read release data_address rev msg input code fuel pc (pc + 33) gas 127 bytes
          rest stack memory h e (is_push32 bytes size) room (omega (arith, size)) in
      let same : word_of_bytes (replicate (32 - length bytes) 0 ++ bytes) ≡ w =
        ap (λ n. word_of_bytes (replicate (32 - n) 0 ++ bytes)) size
        ∙ word_of_bytes-bytes_of_word 32 w word in
      (
        made.0 ∙ ap (λ v. loop code fuel (here code (pc + 33) gas (v ∷ stack) memory h)) same,
        made.1,
      )

  return_word_runs :
      (code : List ℕ) (pc gas value : ℕ) (h : S)
      → drop pc code ≡ 96 ∷ 0 ∷ 82 ∷ 96 ∷ 32 ∷ 96 ∷ 0 ∷ 243 ∷ []
      → loop code 41 (here code pc (suc (suc (suc (suc (suc gas))))) (value ∷ []) empty_memory h)
        ≡ finished StatusCode.success (pos gas) (bytes_of_word 32 value) 32 h
  unfolding word_of_bytes
  return_word_runs code pc gas value h at0 =
      let (one, at2) =
        loop_push host read release data_address rev msg input code 40 pc (pc + 2)
          (suc (suc (suc (suc gas)))) 96 (0 ∷ []) (82 ∷ 96 ∷ 32 ∷ 96 ∷ 0 ∷ 243 ∷ []) (value ∷ [])
          empty_memory h at0 is_push1 (omega arith) (omega arith) in
      let (two, at3) =
        loop_mstore host read release data_address rev msg input code 39 (pc + 2)
          (suc (suc (suc gas))) 0 value (96 ∷ 32 ∷ 96 ∷ 0 ∷ 243 ∷ []) [] empty_memory
          (stored_word value) h at2 (store-word value) in
      let (three, at5) =
        loop_push host read release data_address rev msg input code 38 (pc + 2 + 1) (pc + 2 + 1 + 2)
          (suc (suc gas)) 96 (32 ∷ []) (96 ∷ 0 ∷ 243 ∷ []) [] (stored_word value) h at3 is_push1
          (omega arith) (omega arith) in
      let (four, at7) =
        loop_push host read release data_address rev msg input code 37 (pc + 2 + 1 + 2)
          (pc + 2 + 1 + 2 + 2) (suc gas) 96 (0 ∷ []) (243 ∷ []) (32 ∷ []) (stored_word value) h at5
          is_push1 (omega arith) (omega arith) in
      let five =
        loop_return host read release data_address rev msg input code 36 (pc + 2 + 1 + 2 + 2) gas 0
          32 [] (bytes_of_word 32 value) [] (stored_word value) (stored_word value) h at7
          (expand-stored_word value) (region-stored_word value) in
      one ∙ two ∙ three ∙ four ∙ five

  pub store_program_runs :
      (gas key value : ℕ) (h h' : S) (status : StorageStatus)
      → IsWord key
      → IsWord value
      → msg.gas ≡ pos (3 + gas)
      → host.set_storage msg.recipient key value h ≡ some (status, h')
      → execute host read release data_address rev msg input (store_program key value) h
        ≡ finished StatusCode.success (pos gas) [] 0 h'
  store_program_runs gas key value h h' status key_is value_is gas_is made =
      let code = store_program key value in
      let size : length code ≡ 67 = omega (
        arith,
        length-append (bytes_of_word 32 value) (127 ∷ (bytes_of_word 32 key ++ (85 ∷ []))),
        length-append (bytes_of_word 32 key) (85 ∷ []),
        length-bytes_of_word 32 key,
        length-bytes_of_word 32 value,
      ) in
      let (one, at33) =
        loop_push32 code 67 0 (suc (suc gas)) value (127 ∷ (bytes_of_word 32 key ++ (85 ∷ []))) []
          empty_memory h refl value_is (omega arith) in
      let (two, at66) =
        loop_push32 code 66 33 (suc gas) key (85 ∷ []) (value ∷ []) empty_memory h at33 key_is
          (omega arith) in
      let (three, at67) =
        loop_sstore host read release data_address rev msg input code 65 66 gas key value [] []
          empty_memory h h' status at66 made in
      let four =
        loop_end host read release data_address rev msg input code 64 67 gas [] empty_memory h'
          at67 in
      execute_from_start code 67 (suc (suc (suc gas))) h size (gas_is ∙ ap pos (omega arith))
      ∙ one
      ∙ two
      ∙ three
      ∙ four

  pub load_program_runs :
      (gas key value : ℕ) (h h' : S)
      → IsWord key
      → msg.gas ≡ pos (7 + gas)
      → host.get_storage msg.recipient key h ≡ (value, h')
      → execute host read release data_address rev msg input (load_program key) h
        ≡ finished StatusCode.success (pos gas) (bytes_of_word 32 value) 32 h'
  load_program_runs gas key value h h' key_is gas_is made =
      let code = load_program key in
      let size : length code ≡ 42 = omega (
        arith,
        length-append (bytes_of_word 32 key) (84 ∷ 96 ∷ 0 ∷ 82 ∷ 96 ∷ 32 ∷ 96 ∷ 0 ∷ 243 ∷ []),
        length-bytes_of_word 32 key,
      ) in
      let (one, at33) =
        loop_push32 code 42 0 (suc (suc (suc (suc (suc (suc gas)))))) key
          (84 ∷ 96 ∷ 0 ∷ 82 ∷ 96 ∷ 32 ∷ 96 ∷ 0 ∷ 243 ∷ []) [] empty_memory h refl key_is
          (omega arith) in
      let (two, at34) =
        loop_sload host read release data_address rev msg input code 41 33
          (suc (suc (suc (suc (suc gas))))) key value (96 ∷ 0 ∷ 82 ∷ 96 ∷ 32 ∷ 96 ∷ 0 ∷ 243 ∷ []) []
          empty_memory h h' at33 (omega arith) made in
      let tail = return_word_runs code 34 gas value h' at34 in
      let more : msg.gas ≡ pos (suc (suc (suc (suc (suc (suc (suc gas))))))) =
        gas_is ∙ ap pos (omega arith) in
      execute_from_start code 42 (suc (suc (suc (suc (suc (suc (suc gas))))))) h size more
      ∙ one
      ∙ two
      ∙ tail
