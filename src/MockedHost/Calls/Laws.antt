-- ===== src/MockedHost/Calls/Laws.antt =====
-- What `call` records, and that the records stay within their bounds.
use evmc.Base.{
  ℕ, zero, suc, ◌≡◌, ◌≤◌, ◌<◌, ◌⊎◌, inl, inr, refl, ap, some, take, List, [], ◌∷◌, ◌++◌, length,
  length-append, get_elem?, ltb, arith, Bool-cases, true, false,
}
use evmc.Evmc.Messages.{Message, copied}
use evmc.MockedHost.Types.{Word, MockedHost, max_recorded_calls, max_recorded_account_accesses}
use evmc.MockedHost.Storage.{record_account_access}
use evmc.MockedHost.Calls.{record_call, call}

-- What a message that was given with an input is recorded as, where these are the copies: as it is if
-- it has no input, else with a pointer to a copy of that very input.
abbrev pub IsRecordOf : List (List ℕ) → Message × List ℕ → Message → Type 0
IsRecordOf inputs (given, input) msg =
    ((given.input_size ≡ 0) × (msg ≡ given))
    ⊎ ((i : ℕ) × (0 < given.input_size)
        × (msg ≡ record given { input_data = copied i })
        × (get_elem? inputs i ≡ some input))

-- The messages are the records of the calls, in their order.
abbrev pub AreRecordsOf : List (List ℕ) → List (Message × List ℕ) → List Message → Type 0
AreRecordsOf inputs [] [] = Unit
AreRecordsOf inputs [] (msg ∷ msgs) = ⊥
AreRecordsOf inputs (made ∷ calls) [] = ⊥
AreRecordsOf inputs (made ∷ calls) (msg ∷ msgs) =
    IsRecordOf inputs made msg × AreRecordsOf inputs calls msgs

get_elem?-append :
    (xs : List (List ℕ)) (y x : List ℕ) (i : ℕ)
    → get_elem? xs i ≡ some x
    → get_elem? (xs ++ (y ∷ [])) i ≡ some x
get_elem?-append [] y x i h = ground arith
get_elem?-append (z ∷ xs) y x zero h = h
get_elem?-append (z ∷ xs) y x (suc i) h = get_elem?-append xs y x i h

get_elem?_last : (xs : List (List ℕ)) (y : List ℕ) → get_elem? (xs ++ (y ∷ [])) (length xs) ≡ some y
get_elem?_last [] y = refl
get_elem?_last (x ∷ xs) y = get_elem?_last xs y

IsRecordOf-append :
    (inputs : List (List ℕ)) (y : List ℕ) (made : Message × List ℕ) (msg : Message)
    → IsRecordOf inputs made msg
    → IsRecordOf (inputs ++ (y ∷ [])) made msg
IsRecordOf-append inputs y made msg (inl e) = inl e
IsRecordOf-append inputs y made msg (inr (i, has, e, h)) =
    inr (i, has, e, get_elem?-append inputs y made.1 i h)

AreRecordsOf-append :
    (inputs : List (List ℕ)) (y : List ℕ) (calls : List (Message × List ℕ)) (msgs : List Message)
    → AreRecordsOf inputs calls msgs
    → AreRecordsOf (inputs ++ (y ∷ [])) calls msgs
AreRecordsOf-append inputs y [] [] h = tt
AreRecordsOf-append inputs y [] (msg ∷ msgs) h = absurd h
AreRecordsOf-append inputs y (made ∷ calls) [] h = absurd h
AreRecordsOf-append inputs y (made ∷ calls) (msg ∷ msgs) (h, hs) =
    (IsRecordOf-append inputs y made msg h, AreRecordsOf-append inputs y calls msgs hs)

AreRecordsOf-last :
    (inputs : List (List ℕ)) (calls : List (Message × List ℕ)) (msgs : List Message)
    (made : Message × List ℕ) (msg : Message)
    → AreRecordsOf inputs calls msgs
    → IsRecordOf inputs made msg
    → AreRecordsOf inputs (calls ++ (made ∷ [])) (msgs ++ (msg ∷ []))
AreRecordsOf-last inputs [] [] made msg h last = (last, tt)
AreRecordsOf-last inputs [] (m ∷ msgs) made msg h last = absurd h
AreRecordsOf-last inputs (c ∷ calls) [] made msg h last = absurd h
AreRecordsOf-last inputs (c ∷ calls) (m ∷ msgs) made msg (h, hs) last =
    (h, AreRecordsOf-last inputs calls msgs made msg hs last)

length-AreRecordsOf :
    (inputs : List (List ℕ)) (calls : List (Message × List ℕ)) (msgs : List Message)
    → AreRecordsOf inputs calls msgs
    → length msgs ≡ length calls
length-AreRecordsOf inputs [] [] h = refl
length-AreRecordsOf inputs [] (m ∷ msgs) h = absurd h
length-AreRecordsOf inputs (c ∷ calls) [] h = absurd h
length-AreRecordsOf inputs (c ∷ calls) (m ∷ msgs) (h, hs) =
    ap suc (length-AreRecordsOf inputs calls msgs hs)

take-append :
    (n : ℕ) (calls more : List (Message × List ℕ))
    → n ≤ length calls
    → take n (calls ++ more) ≡ take n calls
take-append zero calls more h = refl
take-append (suc n) [] more h = absurd (omega arith)
take-append (suc n) (c ∷ calls) more h =
    ap (λ (l : List (Message × List ℕ)). c ∷ l) (take-append n calls more (omega arith))

take_all : (n : ℕ) (calls : List (Message × List ℕ)) → length calls ≤ n → take n calls ≡ calls
take_all zero [] h = refl
take_all (suc n) [] h = refl
take_all zero (c ∷ calls) h = absurd (omega arith)
take_all (suc n) (c ∷ calls) h =
    ap (λ (l : List (Message × List ℕ)). c ∷ l) (take_all n calls (omega arith))

length-take_calls : (n : ℕ) (calls : List (Message × List ℕ)) → length (take n calls) ≤ length calls
length-take_calls zero calls = omega arith
length-take_calls (suc n) [] = omega arith
length-take_calls (suc n) (c ∷ calls) = omega (arith, length-take_calls n calls)

fewer_calls :
    (n : ℕ) (calls : List (Message × List ℕ)) → length (take n calls) < n → length calls < n
fewer_calls zero calls h = absurd (omega arith)
fewer_calls (suc n) [] h = omega arith
fewer_calls (suc n) (c ∷ calls) h = omega (arith, fewer_calls n calls (omega arith))

less_of_ltb : (a b : ℕ) → ltb a b ≡ true → a < b
less_of_ltb a b e = ground arith

not_less_of_ltb : (a b : ℕ) → ltb a b ≡ false → b ≤ a
not_less_of_ltb a b e = ground arith

-- The records of a host of which these calls were made: they are within their bounds, so that the
-- vectors never grow beyond what was reserved and the pointers into the copies stay valid, and the
-- recorded calls are the first 100 of those made.
abbrev pub IsWellFormed : List (Message × List ℕ) → MockedHost → Type 0
IsWellFormed made h =
    (length h.recorded_account_accesses ≤ max_recorded_account_accesses)
    × (length h.recorded_calls ≤ max_recorded_calls)
    × (length h.m_recorded_calls_inputs ≤ length h.recorded_calls)
    × AreRecordsOf h.m_recorded_calls_inputs (take max_recorded_calls made) h.recorded_calls

pub record_account_access-IsWellFormed :
    (made : List (Message × List ℕ)) (addr : Word) (h : MockedHost)
    → IsWellFormed made h
    → IsWellFormed made (record_account_access addr h)
unfolding record_account_access
record_account_access-IsWellFormed made addr h (a, c, i, all) =
    elim (Bool-cases (ltb (length h.recorded_account_accesses) max_recorded_account_accesses)) [
      | inl e ↦
          rw (e, record_account_access)
            (
              omega (
                arith,
                length-append h.recorded_account_accesses (addr ∷ []),
                less_of_ltb (length h.recorded_account_accesses) max_recorded_account_accesses e,
              ),
              c,
              i,
              all,
            )
      | inr e ↦ rw (e, record_account_access) (a, c, i, all)
    ]

record_call-IsWellFormed :
    (made : List (Message × List ℕ)) (msg : Message) (input : List ℕ) (h : MockedHost)
    → length made < max_recorded_calls
    → length h.recorded_calls < max_recorded_calls
    → IsWellFormed made h
    → IsWellFormed (made ++ ((msg, input) ∷ [])) (record_call msg input h)
unfolding record_call
record_call-IsWellFormed made msg input h few room (a, c, i, all) =
    let calls = h.recorded_calls in
    let inputs = h.m_recorded_calls_inputs in
    let kept = record msg { input_data = copied (length inputs) } in
    let size = length-append made ((msg, input) ∷ []) in
    let before : take max_recorded_calls made ≡ made =
      take_all max_recorded_calls made (omega arith) in
    let after : take max_recorded_calls (made ++ ((msg, input) ∷ []))
        ≡ made ++ ((msg, input) ∷ []) =
      take_all max_recorded_calls (made ++ ((msg, input) ∷ [])) (omega (arith, size)) in
    let all : AreRecordsOf inputs made calls = rw before at all in
    elim (Bool-cases (ltb 0 msg.input_size)) [
      | inl e ↦
          rw (e, after, record_call)
            (
              a,
              omega (arith, length-append calls (kept ∷ [])),
              omega (arith, length-append calls (kept ∷ []), length-append inputs (input ∷ [])),
              AreRecordsOf-last (inputs ++ (input ∷ [])) made calls (msg, input) kept
                  (AreRecordsOf-append inputs input made calls all)
                  (inr (length inputs, ground arith, refl, get_elem?_last inputs input)),
            )
      | inr e ↦
          rw (e, after, record_call)
            (
              a,
              omega (arith, length-append calls (msg ∷ [])),
              omega (arith, length-append calls (msg ∷ [])),
              AreRecordsOf-last inputs made calls (msg, input) msg all (inl (ground arith, refl)),
            )
    ]

-- A call that is not recorded: the first 100 are those that were recorded before it.
full-IsWellFormed :
    (made : List (Message × List ℕ)) (call : Message × List ℕ) (h : MockedHost)
    → max_recorded_calls ≤ length made
    → IsWellFormed made h
    → IsWellFormed (made ++ (call ∷ [])) h
full-IsWellFormed made call h full (a, c, i, all) =
    rw (take-append max_recorded_calls made (call ∷ []) full) (a, c, i, all)

pub call-IsWellFormed :
    (made : List (Message × List ℕ)) (msg : Message) (input : List ℕ) (h : MockedHost)
    → IsWellFormed made h
    → IsWellFormed (made ++ ((msg, input) ∷ [])) (call msg input h).1
unfolding call
call-IsWellFormed made msg input h ok =
    let h1 = record_account_access msg.recipient h in
    let ok1 = record_account_access-IsWellFormed made msg.recipient h ok in
    let records = length-AreRecordsOf h1.m_recorded_calls_inputs _ h1.recorded_calls ok1.3 in
    elim (Bool-cases (ltb (length h1.recorded_calls) max_recorded_calls)) [
      | inl e ↦
          let room = less_of_ltb (length h1.recorded_calls) max_recorded_calls e in
          let few = fewer_calls max_recorded_calls made (omega (arith, records, room)) in
          rw (e, call) (record_call-IsWellFormed made msg input h1 few room ok1)
      | inr e ↦
          let no_room = not_less_of_ltb (length h1.recorded_calls) max_recorded_calls e in
          let full : max_recorded_calls ≤ length made =
            omega (arith, length-take_calls max_recorded_calls made, records, no_room) in
          rw (e, call) (full-IsWellFormed made (msg, input) h1 full ok1)
    ]
