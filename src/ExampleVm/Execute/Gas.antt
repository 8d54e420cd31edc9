-- ===== src/ExampleVm/Execute/Gas.antt =====
-- The gas and the output of the results of the example VM.
use evmc.Base.{
  ℕ, zero, suc, ◌+◌, ◌≤◌, ◌<◌, ◌≡◌, refl, ◌∙◌, List, [], length, get_elem?, lt_of_get_elem?, arith,
  Option-cases, inl, inr,
}
use evmc.Base.Int.{ℤ, pos}
use evmc.Evmc.{StatusCode, Revision}
use evmc.Evmc.Messages.{Message, EvmcResult}
use evmc.Evmc.Host.{HostInterface}
use evmc.ExampleVm.Machine.{Machine, Step, next, returned, fault, case_of}
use evmc.ExampleVm.Execute.{
  Outcome, finished, faulted, out_of_fuel, round, execute_loop, execute, after_round, start,
}
use evmc.ExampleVm.Execute.Rounds.{IsMachine, Keeps, execute_case-Keeps}
use evmc.ExampleVm.Execute.Laws.{start-IsMachine}

-- Of `gas`, at most `most` is used.
abbrev pub IsLeft : ℕ → ℕ → ℤ → Type 0
IsLeft gas most left = (l : ℕ) × (left ≡ pos l) × (l ≤ gas) × (gas ≤ l + most)

-- A result that succeeds or reverts leaves of `gas` all but at most `most`, another result leaves none;
-- the size that a result gives for its output is the output's.
abbrev pub Answers : {S : Type 0} → ℕ → ℕ → Outcome S → Type 0
Answers gas most (finished StatusCode.success left output size h) =
    IsLeft gas most left × (size ≡ length output)
Answers gas most (finished StatusCode.revert left output size h) =
    IsLeft gas most left × (size ≡ length output)
Answers gas most (finished status left output size h) = (left ≡ pos 0) × (size ≡ length output)
Answers gas most faulted = Unit
Answers gas most out_of_fuel = Unit

-- The same, of a round, that used one.
abbrev KeepsGas : {S : Type 0} → ℕ → ℕ → Step S → Type 0
KeepsGas pc gas (next m') = (pc ≤ m'.pc) × (m'.gas_left ≡ pos gas) × IsMachine m'
KeepsGas pc gas (returned StatusCode.success left output size h) =
    (left ≡ pos gas) × (size ≡ length output)
KeepsGas pc gas (returned StatusCode.revert left output size h) =
    (left ≡ pos gas) × (size ≡ length output)
KeepsGas pc gas (returned status left output size h) = (left ≡ pos 0) × (size ≡ length output)
KeepsGas pc gas fault = Unit

module _ {S : Type 0} (host : HostInterface S) (read : EvmcResult → S → List ℕ)
    (release : EvmcResult → S → S) (data_address : ℕ) (rev : Revision) (msg : Message)
    (input code : List ℕ) where
  abbrev loop : ℕ → Machine S → Outcome S
  loop = execute_loop host read release data_address rev msg input code

  of_Keeps :
      (m : Machine S) (gas : ℕ) (s : Step S)
      → m.gas_left ≡ pos gas
      → Keeps m s
      → KeepsGas m.pc gas s
  of_Keeps m gas (next m') e (pc, gas_is, ok) = (pc, gas_is ∙ e, ok)
  of_Keeps m gas (returned StatusCode.success left output size h) e (left_is, k) = (left_is ∙ e, k)
  of_Keeps m gas (returned StatusCode.revert left output size h) e (left_is, k) = (left_is ∙ e, k)
  of_Keeps m gas (returned status left output size h) e k = k
  of_Keeps m gas fault e k = tt

  round-KeepsGas :
      (b : ℕ) (m : Machine S) (gas : ℕ)
      → m.gas_left ≡ pos (suc gas)
      → IsMachine m
      → KeepsGas m.pc gas (round host read release data_address rev msg input code b m)
  unfolding round
  round-KeepsGas b m gas e ok =
      let m1 = record m { gas_left = pos gas } in
      rw e (
        of_Keeps m1 gas _ refl
          (execute_case-Keeps host read release data_address rev msg input code (case_of b) m1 ok))

  round_out_of_gas :
      (b : ℕ) (m : Machine S)
      → m.gas_left ≡ pos 0
      → round host read release data_address rev msg input code b m
        ≡ returned StatusCode.out_of_gas (pos 0) [] 0 m.host
  unfolding round
  round_out_of_gas b m e = rw e

  one_more : (gas most : ℕ) (left : ℤ) → IsLeft gas most left → IsLeft (suc gas) (suc most) left
  one_more gas most left (l, e, below, above) = (l, e, omega arith, omega arith)

  Answers-suc : (gas most : ℕ) (o : Outcome S) → Answers gas most o → Answers (suc gas) (suc most) o
  Answers-suc gas most (finished StatusCode.success left output size h) (used, k) =
      (one_more gas most left used, k)
  Answers-suc gas most (finished StatusCode.revert left output size h) (used, k) =
      (one_more gas most left used, k)
  Answers-suc gas most (finished status left output size h) k = k
  Answers-suc gas most faulted k = tt
  Answers-suc gas most out_of_fuel k = tt

  after-Answers :
      (s : Step S) (fuel pc gas most : ℕ)
      → KeepsGas pc gas s
      → ((m' : Machine S)
          → pc < m'.pc
          → m'.gas_left ≡ pos gas
          → IsMachine m'
          → Answers gas most (loop fuel m'))
      → Answers
          (suc gas)
          (suc most)
          (after_round host read release data_address rev msg input code (loop fuel) s)
  after-Answers (next m') fuel pc gas most (pc_is, gas_is, ok) later =
      let m1 = record m' { pc = m'.pc + 1 } in
      Answers-suc gas most (loop fuel m1) (later m1 (omega arith) gas_is ok)
  after-Answers (returned StatusCode.success left output size h) fuel pc gas most (e, k) later =
      ((gas, e, omega arith, omega arith), k)
  after-Answers (returned StatusCode.revert left output size h) fuel pc gas most (e, k) later =
      ((gas, e, omega arith, omega arith), k)
  after-Answers (returned status left output size h) fuel pc gas most k later = k
  after-Answers fault fuel pc gas most k later = tt

  byte-Answers :
      (b fuel : ℕ) (m : Machine S) (gas most : ℕ)
      → m.gas_left ≡ pos gas
      → length code ≤ m.pc + most
      → m.pc < length code
      → IsMachine m
      → ((m' : Machine S) (gas most : ℕ)
          → m'.gas_left ≡ pos gas
          → length code ≤ m'.pc + most
          → IsMachine m'
          → Answers gas most (loop fuel m'))
      → Answers gas most (
          after_round host read release data_address rev msg input code
            (loop fuel)
            (round host read release data_address rev msg input code b m))
  byte-Answers b fuel m zero most gas_is room within ok later =
      rw (round_out_of_gas b m gas_is) (refl, refl)
  byte-Answers b fuel m (suc gas) zero gas_is room within ok later = absurd (omega arith)
  byte-Answers b fuel m (suc gas) (suc most) gas_is room within ok later =
      after-Answers (round host read release data_address rev msg input code b m) fuel m.pc gas most
        (round-KeepsGas b m gas gas_is ok)
        λ m' after gas_is' ok'. later m' gas most gas_is' (omega arith) ok'

  execute_loop-Answers :
      (fuel : ℕ) (m : Machine S) (gas most : ℕ)
      → m.gas_left ≡ pos gas
      → length code ≤ m.pc + most
      → IsMachine m
      → Answers gas most (loop fuel m)
  unfolding execute_loop
  execute_loop-Answers zero m gas most gas_is room ok = tt
  execute_loop-Answers (suc fuel) m gas most gas_is room ok =
      elim (Option-cases (get_elem? code m.pc)) [
        | inl e ↦ rw (e, execute_loop) ((gas, gas_is, omega arith, omega arith), refl)
        | inr (b, e) ↦
            let within = lt_of_get_elem? code m.pc b e in
            rw (e, execute_loop)
              (byte-Answers b fuel m gas most gas_is room within ok (execute_loop-Answers fuel))
      ]

  -- For a message with gas: a result with the status success or revert leaves of it all but at most one
  -- for each byte of the code, any other result leaves 0, and the size a result gives for its output is
  -- the number of its bytes.
  pub execute-Answers :
      (gas : ℕ) (h : S)
      → msg.gas ≡ pos gas
      → Answers gas (length code) (execute host read release data_address rev msg input code h)
  unfolding execute
  execute-Answers gas h gas_is =
      let m = start host read release data_address rev msg input code h in
      execute_loop-Answers (suc (length code)) m gas (length code) gas_is (omega arith)
        (start-IsMachine host read release data_address rev msg input code h)
