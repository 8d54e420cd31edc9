-- ===== src/Owners/Balance.antt =====
-- Every structure that comes into an object is owned by one object, released or handed out.
use evmc.Base.{
  ℕ, ◌+◌, ◌≡◌, refl, Bool, false, Option, none, some, List, [], ◌∷◌, ◌++◌, arith, Option-cases, inl,
  inr,
}
use mathlib.Core.Path.{subst}
use evmc.Evmc.Messages.{EvmcResult}
use evmc.MockedHost.Map.{find}
use evmc.Owners.Count.{
  one, count, count_objects, count-append, count-replace, find-replace, count-remove,
}
use evmc.Owners.{
  Scope, Operation, construct, destruct, move_construct, move_assign, release_raw, replace, end_of,
  perform, perform_each, owns_result, give_up_result, results, owns_instance, give_up_instance,
  instances,
}

-- The structures that operations bring into objects.
unfoldable pub acquired : {A : Type 0} → List (Operation A) → List A
acquired [] = []
acquired (construct name a ∷ ops) = a ∷ acquired ops
acquired (destruct name ∷ ops) = acquired ops
acquired (move_construct name other ∷ ops) = acquired ops
acquired (move_assign name other ∷ ops) = acquired ops
acquired (release_raw name ∷ ops) = acquired ops

abbrev pub no_objects : {A : Type 0} → Scope A
no_objects = record { objects = []; released = [] }

module _ {A : Type 0} (owns : A → Bool) (give_up : A → A) (which : A → Bool)
    (gives_up : (a : A) → owns (give_up a) ≡ false) where
  abbrev total : Scope A → ℕ
  total s = count_objects owns which s.objects + count owns which s.released

  count-end_of :
      (a : A) (released : List A)
      → count owns which (end_of owns give_up a released)
        ≡ one owns which a + count owns which released
  unfolding end_of
  count-end_of a released = ground arith

  one-give_up : (a : A) → one owns which (give_up a) ≡ 0
  one-give_up a = rw (gives_up a) refl

  abbrev Balanced : Operation A → Scope A → Option (Scope A × List A) → Type 0
  Balanced op s none = Unit
  Balanced op s (some (s', handed)) =
      total s + count owns which (acquired (op ∷ [])) ≡ total s' + count owns which handed

  perform-Balanced : (op : Operation A) (s : Scope A) → Balanced op s (perform owns give_up op s)
  unfolding perform acquired
  perform-Balanced (construct name a) s = omega arith
  perform-Balanced (destruct name) s = elim (Option-cases (find s.objects name)) [
    | inl e ↦ rw (e, perform) tt
    | inr (a, e) ↦
        rw (e, perform)
          (omega (arith, count-end_of a s.released, count-remove owns which name a s.objects e))
  ]
  perform-Balanced (move_construct name other) s = elim (Option-cases (find s.objects other)) [
    | inl e ↦ rw (e, perform) tt
    | inr (a, e) ↦
        rw (e, perform)
          (omega (arith, one-give_up a, count-replace owns which other a (give_up a) s.objects e))
  ]
  perform-Balanced (move_assign name other) s = elim (Option-cases (find s.objects name)) [
    | inl e ↦ rw (e, perform) tt
    | inr (this, e) ↦ elim (Option-cases (find s.objects other)) [
      | inl lost ↦ rw (e, lost, perform) tt
      | inr (a, found) ↦
          let kept = find-replace owns which name other a s.objects found in
          rw (e, found, perform)
            (omega (
              arith,
              one-give_up a,
              count-end_of this s.released,
              count-replace owns which name this a s.objects e,
              count-replace owns which other a (give_up a) (replace name a s.objects) kept,
            ))
    ]
  ]
  perform-Balanced (release_raw name) s = elim (Option-cases (find s.objects name)) [
    | inl e ↦ rw (e, perform) tt
    | inr (a, e) ↦
        rw (e, perform)
          (omega (arith, one-give_up a, count-replace owns which name a (give_up a) s.objects e))
  ]

  count-acquired :
      (op : Operation A) (ops : List (Operation A))
      → count owns which (acquired (op ∷ ops))
        ≡ count owns which (acquired (op ∷ [])) + count owns which (acquired ops)
  unfolding acquired
  count-acquired (construct name a) ops = omega arith
  count-acquired (destruct name) ops = omega arith
  count-acquired (move_construct name other) ops = omega arith
  count-acquired (move_assign name other) ops = omega arith
  count-acquired (release_raw name) ops = omega arith

  abbrev EachBalanced : List (Operation A) → Scope A → Option (Scope A × List A) → Type 0
  EachBalanced ops s none = Unit
  EachBalanced ops s (some (s', handed)) =
      total s + count owns which (acquired ops) ≡ total s' + count owns which handed

  -- The structures handed out by the first operation and by those behind it.
  abbrev hand_on : List A → Option (Scope A × List A) → Option (Scope A × List A)
  hand_on handed none = none
  hand_on handed (some (s, more)) = some (s, handed ++ more)

  hand_on-EachBalanced :
      (op : Operation A) (ops : List (Operation A)) (s s1 : Scope A) (handed : List A)
      (o : Option (Scope A × List A))
      → Balanced op s (some (s1, handed))
      → EachBalanced ops s1 o
      → EachBalanced (op ∷ ops) s (hand_on handed o)
  hand_on-EachBalanced op ops s s1 handed none first rest = tt
  hand_on-EachBalanced op ops s s1 handed (some (s2, more)) first rest =
      omega (arith, first, rest, count-acquired op ops, count-append owns which handed more)

  abbrev behind : List (Operation A) → Option (Scope A × List A) → Option (Scope A × List A)
  behind ops none = none
  behind ops (some (s, handed)) = hand_on handed (perform_each owns give_up ops s)

  behind-EachBalanced :
      (op : Operation A) (ops : List (Operation A)) (s : Scope A) (o : Option (Scope A × List A))
      → Balanced op s o
      → ((s1 : Scope A) → EachBalanced ops s1 (perform_each owns give_up ops s1))
      → EachBalanced (op ∷ ops) s (behind ops o)
  behind-EachBalanced op ops s none first rest = tt
  behind-EachBalanced op ops s (some (s1, handed)) first rest =
      hand_on-EachBalanced op ops s s1 handed (perform_each owns give_up ops s1) first (rest s1)

  perform_each-EachBalanced :
      (ops : List (Operation A)) (s : Scope A)
      → EachBalanced ops s (perform_each owns give_up ops s)
  unfolding perform_each
  perform_each-EachBalanced [] s = unfold acquired in omega arith
  perform_each-EachBalanced (op ∷ ops) s =
      behind-EachBalanced op ops s (perform owns give_up op s) (perform-Balanced op s)
        (perform_each-EachBalanced ops)

  pub balance :
      (ops : List (Operation A)) (s : Scope A) (handed : List A)
      → perform_each owns give_up ops no_objects ≡ some (s, handed)
      → count owns which (acquired ops)
        ≡ count_objects owns which s.objects + count owns which s.released + count owns which handed
  balance ops s handed e =
      let balanced : EachBalanced ops no_objects (some (s, handed)) =
        subst (EachBalanced ops no_objects) e (perform_each-EachBalanced ops no_objects) in
      omega (arith, balanced)

-- Whatever operations make, move, assign, hand out and destruct objects of the class `Result`, from none
-- on: of any kind of results with a release function that came into objects, each one is owned by
-- one object, has been released, or was handed out by `release_raw`, and only one of the three.
pub results-balance :
    (which : EvmcResult → Bool) (ops : List (Operation EvmcResult)) (s : Scope EvmcResult)
    (handed : List EvmcResult)
    → results ops no_objects ≡ some (s, handed)
    → count owns_result which (acquired ops)
      ≡ count_objects owns_result which s.objects
        + count owns_result which s.released
        + count owns_result which handed
unfolding results
results-balance which ops s handed e =
    balance owns_result give_up_result which (λ r. refl) ops s handed e

-- The same of the class `VM`: each instance that came into objects is owned by one object or has been
-- destroyed, and only one of the two, where none is handed out.
pub instances-balance :
    (which : Option ℕ → Bool) (ops : List (Operation (Option ℕ))) (s : Scope (Option ℕ))
    → instances ops no_objects ≡ some (s, [])
    → count owns_instance which (acquired ops)
      ≡ count_objects owns_instance which s.objects + count owns_instance which s.released
unfolding instances
instances-balance which ops s e =
    omega (arith, balance owns_instance give_up_instance which (λ vm. refl) ops s [] e)
