-- ===== src/Tests/ExampleVm.antt =====
-- The example VM on small programs.
use evmc.Base.{
  ℕ, ◌+◌, ◌<◌, ◌≤◌, ◌%◌, ◌^◌, ◌≡◌, ◌≢◌, ◌⊎◌, refl, none, some, true, false, List, [], ◌∷◌, length,
  arith,
}
use evmc.Base.Int.{ℤ, pos}
use evmc.Base.{leb, ◌-◌, ◌&&◌, if◌then◌else◌}
use evmc.Base.Words.{bytes_of_word}
use evmc.Evmc.{StatusCode, Revision}
use evmc.Evmc.Messages.{Message, outside, call_kind}
use evmc.MockedHost.Types.{MockedHost}
use evmc.MockedHost.Interface.{interface}
use evmc.ExampleVm.Memory.{Memory, memory_limit, empty_memory, store, region}
use evmc.ExampleVm.Memory.Laws.{IsMemory}
use evmc.ExampleVm.Memory.Store.{store_lem}
use evmc.ExampleVm.Execute.{Outcome, finished, out_of_fuel, execute}
use evmc.ExampleVm.Execute.Laws.{execute_ends}
use evmc.ExampleVm.Execute.Gas.{Answers, execute-Answers}
use evmc.CString.{Text, text}
use evmc.Helpers.Vm.{set_option_success}
use evmc.ExampleVm.Options.{new_vm, set_option}
use evmc.ExampleVm.Programs.{store_program, load_program}
use evmc.ExampleVm.Programs.Mocked.{store_program-load_program}
use evmc.Tests.MockedHost.{small_host}

abbrev pub message : Message
message = record {
  kind = call_kind;
  flags = 0;
  depth = pos 0;
  gas = pos 9;
  recipient = 5;
  sender = 0;
  input_data = outside none;
  input_size = 0;
  value = 0;
  create2_salt = 0;
  code_address = 0;
  code = none;
  code_size = 0;
}

abbrev run : List ℕ → MockedHost → Outcome MockedHost
run = execute interface (λ r h. []) (λ r h. h) 4096 Revision.berlin message []

-- PUSH1 2 PUSH1 3 ADD MSIZE
abbrev sum_program : List ℕ
sum_program = 96 ∷ 2 ∷ 96 ∷ 3 ∷ 1 ∷ 89 ∷ []

sum_program_runs : run sum_program small_host ≡ finished StatusCode.success (pos 5) [] 0 small_host
unfolding execute
sum_program_runs = refl

execute_ends_example : run sum_program small_host ≢ out_of_fuel
execute_ends_example =
    execute_ends interface (λ r h. []) (λ r h. h) 4096 Revision.berlin message [] sum_program
      small_host

execute-Answers_example : Answers 9 (length sum_program) (run sum_program small_host)
execute-Answers_example =
    execute-Answers interface (λ r h. []) (λ r h. h) 4096 Revision.berlin message [] sum_program 9
      small_host refl

store_program-load_program_example :
    (h1 : MockedHost) × (h2 : MockedHost) × (run (store_program 1 77) small_host
      ≡ finished StatusCode.success (pos (4 + 2)) [] 0 h1)
    × (run (load_program 1) h1 ≡ finished StatusCode.success (pos 2) (bytes_of_word 32 77) 32 h2)
store_program-load_program_example =
    store_program-load_program (λ r h. []) (λ r h. h) 4096 Revision.berlin message [] 2 1 77
      small_host (omega arith) (omega arith) refl

empty_memory-IsMemory : IsMemory empty_memory
empty_memory-IsMemory = (omega arith, refl)

store_lem_example :
    ((4294967295 + 1 ≤ memory_limit)
      × ((memory' : Memory) × (store 4294967295 (7 ∷ []) empty_memory ≡ some (true, memory'))
          × (region 4294967295 1 memory' ≡ some (7 ∷ []))
          × (4294967295 + 1 ≤ memory'.size)
          × (empty_memory.size ≤ memory'.size)))
    ⊎ (((memory_limit < (4294967295 + 1) % 2 ^ 32)
          × (store 4294967295 (7 ∷ []) empty_memory ≡ some (false, empty_memory)))
        ⊎ ((2 ^ 32 ≤ 4294967295 + 1)
            × (4294967295 + 1 ≤ 2 ^ 32 + memory_limit)
            × (store 4294967295 (7 ∷ []) empty_memory ≡ none)))
store_lem_example =
    store_lem 4294967295 (7 ∷ []) empty_memory empty_memory-IsMemory (omega arith) (omega arith)

-- A function that reads one digit.
abbrev one_digit : Text → ℤ × ℕ
one_digit [] = (pos 0, 0)
one_digit (c ∷ s) = if leb 48 c && leb c 57 then (pos (c - 48), 1) else (pos 0, 0)

set_option_run :
    set_option one_digit new_vm (text "verbose") (some (text "7"))
    ≡ (set_option_success, record { verbose = pos 7 })
unfolding set_option
set_option_run = refl
