-- ===== src/Helpers/Names/Laws.antt =====
-- The names tell the status codes, and the revisions, apart.
use Prim.Native.String.{String}
use text.Mathlib.Text.{◌==◌ as str_eq}
use evmc.Base.{
  ◌≡◌, ◌⊎◌, inl, inr, refl, sym, ap, ◌∙◌, Option, none, some, List, [], ◌∷◌, if◌then◌else◌,
}
use evmc.Evmc.{StatusCode, Revision}
use evmc.Helpers.Names.{evmc_status_code_to_string, evmc_revision_to_string}

module _ {A : Type 0} (to_string : A → String) where
  -- The first of the values with a name.
  abbrev named : List A → String → Option A
  named [] name = none
  named (a ∷ rest) name = if str_eq (to_string a) name then some a else named rest name

  -- If each value is found by its name or unknown, the names of known values differ.
  named-inj :
      (values : List A)
      → ((a : A) → (named values (to_string a) ≡ some a) ⊎ (to_string a ≡ "<unknown>"))
      → (a b : A) → to_string a ≡ to_string b
      → (a ≡ b) ⊎ (to_string a ≡ "<unknown>")
  named-inj values found a b e = elim (found a) [
    | inr unknown ↦ inr unknown
    | inl at_a ↦ elim (found b) [
      | inr unknown ↦ inr (e ∙ unknown)
      | inl at_b ↦
          let same : some a ≡ some b = sym at_a ∙ ap (named values) e ∙ at_b in inl (cc same)
    ]
  ]

abbrev status_codes : List StatusCode
status_codes =
    StatusCode.success ∷ StatusCode.failure ∷ StatusCode.revert ∷ StatusCode.out_of_gas
    ∷ StatusCode.invalid_instruction ∷ StatusCode.undefined_instruction ∷ StatusCode.stack_overflow
    ∷ StatusCode.stack_underflow ∷ StatusCode.bad_jump_destination
    ∷ StatusCode.invalid_memory_access ∷ StatusCode.call_depth_exceeded
    ∷ StatusCode.static_mode_violation ∷ StatusCode.precompile_failure
    ∷ StatusCode.contract_validation_failure ∷ StatusCode.argument_out_of_range
    ∷ StatusCode.wasm_unreachable_instruction ∷ StatusCode.wasm_trap
    ∷ StatusCode.insufficient_balance ∷ StatusCode.internal_error ∷ StatusCode.rejected
    ∷ StatusCode.out_of_memory ∷ []

abbrev revisions : List Revision
revisions =
    Revision.frontier ∷ Revision.homestead ∷ Revision.tangerine_whistle ∷ Revision.spurious_dragon
    ∷ Revision.byzantium ∷ Revision.constantinople ∷ Revision.petersburg ∷ Revision.istanbul
    ∷ Revision.berlin ∷ Revision.london ∷ Revision.paris ∷ Revision.shanghai ∷ Revision.cancun
    ∷ Revision.prague ∷ Revision.osaka ∷ Revision.experimental ∷ []

status_code_named :
    (a : StatusCode)
    → (named evmc_status_code_to_string status_codes (evmc_status_code_to_string a) ≡ some a)
      ⊎ (evmc_status_code_to_string a ≡ "<unknown>")
unfolding evmc_status_code_to_string
status_code_named (StatusCode.other n) = inr refl
status_code_named (StatusCode.other_internal n) = inr refl
status_code_named _ = inl refl

revision_named :
    (a : Revision)
    → (named evmc_revision_to_string revisions (evmc_revision_to_string a) ≡ some a)
      ⊎ (evmc_revision_to_string a ≡ "<unknown>")
unfolding evmc_revision_to_string
revision_named (Revision.other n) = inr refl
revision_named _ = inl refl

-- Two status codes with the same name are equal, unless the name is the one for unknown codes.
pub evmc_status_code_to_string-inj :
    (a b : StatusCode)
    → evmc_status_code_to_string a ≡ evmc_status_code_to_string b
    → (a ≡ b) ⊎ (evmc_status_code_to_string a ≡ "<unknown>")
evmc_status_code_to_string-inj = named-inj evmc_status_code_to_string status_codes status_code_named

-- Two revisions with the same name are equal, unless the name is the one for unknown revisions.
pub evmc_revision_to_string-inj :
    (a b : Revision)
    → evmc_revision_to_string a ≡ evmc_revision_to_string b
    → (a ≡ b) ⊎ (evmc_revision_to_string a ≡ "<unknown>")
evmc_revision_to_string-inj = named-inj evmc_revision_to_string revisions revision_named
