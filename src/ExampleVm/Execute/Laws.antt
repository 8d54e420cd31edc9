-- ===== src/ExampleVm/Execute/Laws.antt =====
-- The loop of the example VM ends, and what its results hold.
use evmc.Base.{
  ℕ, zero, suc, ◌+◌, ◌≤◌, ◌<◌, ◌≡◌, ◌≢◌, refl, Bool, true, false, List, length, get_elem?,
  lt_of_get_elem?, length-replicate, if◌then◌else◌, arith, Option-cases, inl, inr,
}
use evmc.Evmc.{StatusCode, Revision}
use evmc.Evmc.Messages.{Message, EvmcResult}
use evmc.Evmc.Host.{HostInterface}
use evmc.ExampleVm.Memory.{memory_limit}
use evmc.ExampleVm.Machine.{
  Machine, Step, next, returned, fault, failed, minus_one, is_negative, case_of,
}
use evmc.ExampleVm.Execute.{
  Outcome, out_of_fuel, execute_case, round, execute_loop, execute, after_round, start,
}
use evmc.ExampleVm.Execute.Rounds.{IsMachine, Keeps, execute_case-Keeps}

module _ {S : Type 0} (host : HostInterface S) (read : EvmcResult → S → List ℕ)
    (release : EvmcResult → S → S) (data_address : ℕ) (rev : Revision) (msg : Message)
    (input code : List ℕ) where
  abbrev loop : ℕ → Machine S → Outcome S
  loop = execute_loop host read release data_address rev msg input code

  -- A round does not go back and keeps the arrays within their bounds.
  abbrev GoesOn : Machine S → Step S → Type 0
  GoesOn m (next m') = (m.pc ≤ m'.pc) × IsMachine m'
  GoesOn m _ = Unit

  of_Keeps : (m m' : Machine S) (s : Step S) → m.pc ≡ m'.pc → Keeps m s → GoesOn m' s
  of_Keeps m m' (next m'') e (pc, gas, ok) = (omega arith, ok)
  of_Keeps m m' (returned status gas output size h) e k = tt
  of_Keeps m m' fault e k = tt

  round-GoesOn :
      (b : ℕ) (m : Machine S)
      → IsMachine m
      → GoesOn m (round host read release data_address rev msg input code b m)
  unfolding round
  round-GoesOn b m ok =
      let m1 = record m { gas_left = minus_one m.gas_left } in
      by_gas (is_negative m1.gas_left) m1 refl ok
    where
      by_gas :
          (negative : Bool) (m1 : Machine S)
          → m1.pc ≡ m.pc
          → IsMachine m1
          → GoesOn m (
              if negative
              then failed StatusCode.out_of_gas m1
              else execute_case host read release data_address rev msg input code (case_of b) m1)
      by_gas true m1 e ok = tt
      by_gas false m1 e ok =
          of_Keeps m1 m _ e
            (execute_case-Keeps host read release data_address rev msg input code (case_of b) m1 ok)

  -- After a round at a place within the code, fuel for the places that are left is enough.
  after_ends :
      (s : Step S) (fuel : ℕ) (m : Machine S)
      → GoesOn m s
      → ((m' : Machine S) → m.pc < m'.pc → IsMachine m' → loop fuel m' ≢ out_of_fuel)
      → after_round host read release data_address rev msg input code (loop fuel) s ≢ out_of_fuel
  after_ends (next m') fuel m (pc, ok) later = later (record m' { pc = m'.pc + 1 }) (omega arith) ok
  after_ends (returned status gas output size h) fuel m on later = λ e. cc e
  after_ends fault fuel m on later = λ e. cc e

  execute_loop_ends :
      (fuel : ℕ) (m : Machine S)
      → 0 < fuel
      → length code < m.pc + fuel
      → IsMachine m
      → loop fuel m ≢ out_of_fuel
  unfolding execute_loop
  execute_loop_ends zero m some_fuel room ok = absurd (omega arith)
  execute_loop_ends (suc fuel) m some_fuel room ok = elim (Option-cases (get_elem? code m.pc)) [
    | inl e ↦ rw (e, execute_loop) (λ same. cc same)
    | inr (b, e) ↦
        let within = lt_of_get_elem? code m.pc b e in
        let here = round host read release data_address rev msg input code b m in
        rw (e, execute_loop)
          (after_ends here fuel m (round-GoesOn b m ok)
            λ m' later ok'. execute_loop_ends fuel m' (omega arith) (omega arith) ok')
  ]

  pub start-IsMachine :
      (h : S) → IsMachine (start host read release data_address rev msg input code h)
  start-IsMachine h = (omega arith, (omega arith, length-replicate {A = ℕ} memory_limit 0))

  -- The execution of any code, for any message, revision and host, ends: a round for each byte of the
  -- code and one more are enough.
  pub execute_ends :
      (h : S) → execute host read release data_address rev msg input code h ≢ out_of_fuel
  unfolding execute
  execute_ends h =
      let m = start host read release data_address rev msg input code h in
      execute_loop_ends (suc (length code)) m (omega arith) (omega arith) (start-IsMachine h)
