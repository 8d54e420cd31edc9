-- ===== src/ExampleVm/Programs/Mocked.antt =====
-- The example VM on the mocked host.
use evmc.Base.{ℕ, ◌+◌, ◌≡◌, ap, ◌∙◌, List, [], arith}
use evmc.Base.Int.{pos}
use evmc.Base.Words.{bytes_of_word}
use evmc.Evmc.{StatusCode, Revision}
use evmc.Evmc.Messages.{Message, EvmcResult}
use evmc.MockedHost.Types.{MockedHost}
use evmc.MockedHost.Interface.{interface}
use evmc.MockedHost.Storage.{get_storage}
use evmc.MockedHost.Storage.Laws.{set_storage-get_storage}
use evmc.ExampleVm.Execute.{Outcome, finished, execute}
use evmc.ExampleVm.Programs.{
  store_program, load_program, IsWord, store_program_runs, load_program_runs,
}

module _ (read : EvmcResult → MockedHost → List ℕ) (release : EvmcResult → MockedHost → MockedHost)
    (data_address : ℕ) (rev : Revision) (msg : Message) (input : List ℕ) where
  abbrev run : List ℕ → MockedHost → Outcome MockedHost
  run code = execute interface read release data_address rev msg input code

  -- For a word and a key, and a message with enough gas: the program that stores the word succeeds on
  -- the mocked host and takes a unit of gas for each instruction, and on the host that it leaves the
  -- program that loads the key succeeds with the 32 bytes of the word as output.
  pub store_program-load_program :
      (gas key value : ℕ) (h : MockedHost)
      → IsWord key
      → IsWord value
      → msg.gas ≡ pos (7 + gas)
      → (h1 : MockedHost) × (h2 : MockedHost) × (run (store_program key value) h
          ≡ finished StatusCode.success (pos (4 + gas)) [] 0 h1)
        × (run (load_program key) h1
            ≡ finished StatusCode.success (pos gas) (bytes_of_word 32 value) 32 h2)
  store_program-load_program gas key value h key_is value_is gas_is =
      let (status, h1, made, means, reads) =
        set_storage-get_storage msg.recipient key value msg.recipient key h in
      let got = get_storage msg.recipient key h1 in
      let value_is_read : got.0 ≡ value = ground (arith, reads) in
      let whole : got ≡ (value, got.1) = ap (λ (v : ℕ). (v, got.1)) value_is_read in
      (
        h1,
        got.1,
        store_program_runs interface read release data_address rev msg input (4 + gas) key value h
            h1 status key_is value_is (gas_is ∙ ap pos (omega arith)) made,
        load_program_runs interface read release data_address rev msg input gas key value h1 got.1
            key_is gas_is whole,
      )
