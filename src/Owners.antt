-- ===== src/Owners.antt =====
-- The classes `Result` and `VM` of include/evmc/evmc.hpp: objects that own a C structure and release
-- it at their end.
pub mod Count
pub mod Balance
use evmc.Base.{ℕ, Bool, true, false, Option, none, some, List, [], ◌∷◌, ◌++◌, ◌==◌, if◌then◌else◌}
use evmc.Evmc.Messages.{EvmcResult}
use evmc.MockedHost.Map.{Map, find}

-- The objects in scope, known by a number each, and the structures that were released, the latest
-- first.
pub record Scope (A : Type 0) : Type 0 where
  pub objects : Map A
  pub released : List A

-- What a program does with objects.
pub data Operation (A : Type 0) : Type 0 where
  construct : ℕ → A → Operation A
  destruct : ℕ → Operation A
  move_construct : ℕ → ℕ → Operation A
  move_assign : ℕ → ℕ → Operation A
  release_raw : ℕ → Operation A

module _ {A : Type 0} where
  unfoldable pub replace : ℕ → A → Map A → Map A
  replace k new [] = []
  replace k new ((i, a) ∷ m) =
      let rest = replace k new m in if i == k then (i, new) ∷ m else (i, a) ∷ rest

  unfoldable pub remove : ℕ → Map A → Map A
  remove k [] = []
  remove k ((i, a) ∷ m) = let rest = remove k m in if i == k then m else (i, a) ∷ rest

-- `owns` is the test of the destructor, and `give_up` the assignment of null to the object that is
-- moved from. An operation on an object that is not in scope is `none`. The answer of an operation is
-- the new scope and the structures that are handed to the caller.
module _ {A : Type 0} (owns : A → Bool) (give_up : A → A) where
  -- The body of the destructor.
  unfoldable pub end_of : A → List A → List A
  end_of a released = if owns a then a ∷ released else released

  unfoldable pub perform : Operation A → Scope A → Option (Scope A × List A)
  unfolding end_of find replace remove
  perform (construct name a) s = some (record s { objects = (name, a) ∷ s.objects }, [])
  perform (destruct name) s = elim (find s.objects name) [
    | none ↦ none
    | some a ↦ some (record { objects = remove name s.objects; released = end_of a s.released }, [])
  ]
  perform (move_construct name other) s = elim (find s.objects other) [
    | none ↦ none
    | some a ↦ some (record s { objects = (name, a) ∷ replace other (give_up a) s.objects }, [])
  ]
  perform (move_assign name other) s = elim (find s.objects name) [
    | none ↦ none
    | some this ↦
        let s = record s { released = end_of this s.released } in
        elim (find s.objects other) [
          | none ↦ none
          | some a ↦
              let s = record s { objects = replace name a s.objects } in
              some (record s { objects = replace other (give_up a) s.objects }, [])
        ]
  ]
  perform (release_raw name) s = elim (find s.objects name) [
    | none ↦ none
    | some a ↦ some (record s { objects = replace name (give_up a) s.objects }, a ∷ [])
  ]

  -- A sequence of operations, and what is handed out along it.
  unfoldable pub perform_each : List (Operation A) → Scope A → Option (Scope A × List A)
  unfolding perform
  perform_each [] s = some (s, [])
  perform_each (op ∷ ops) s = elim (perform op s) [
    | none ↦ none
    | some (s, handed) ↦ elim (perform_each ops s) [
      | none ↦ none
      | some (s, more) ↦ some (s, handed ++ more)
    ]
  ]

-- `Result`: its release function is not null, and is set to null.
abbrev pub owns_result : EvmcResult → Bool
owns_result r = elim (r.release) [ none ↦ false | some release ↦ true ]

abbrev pub give_up_result : EvmcResult → EvmcResult
give_up_result r = record r { release = none }

unfoldable pub results :
    List (Operation EvmcResult) → Scope EvmcResult → Option (Scope EvmcResult × List EvmcResult)
unfolding perform_each
results ops s = perform_each owns_result give_up_result ops s

-- `VM`: its `m_instance`, which is not null, and is set to null.
abbrev pub owns_instance : Option ℕ → Bool
owns_instance m_instance = elim m_instance [ none ↦ false | some vm ↦ true ]

abbrev pub give_up_instance : Option ℕ → Option ℕ
give_up_instance m_instance = none

unfoldable pub instances :
    List (Operation (Option ℕ)) → Scope (Option ℕ) → Option (Scope (Option ℕ) × List (Option ℕ))
unfolding perform_each
instances ops s = perform_each owns_instance give_up_instance ops s
