-- ===== src/Loader/Load/Laws.antt =====
-- What `evmc_load` answers, and which handles it leaves open.
use mathlib.Core.Option
use evmc.Base.{
  ℕ, ◌+◌, ◌≡◌, ◌≢◌, ◌<◌, ap, ◌↔◌, ◌⊎◌, inl, inr, Option-cases, Option, none, some, [], ◌∷◌, ◌==◌,
  if◌then◌else◌, length, arith,
}
use evmc.CString.{Text, text, IsString, cstr}
use evmc.Helpers.Vm.{opened, looked_up, closed, History}
use evmc.Loader.Types.{loader_success, invalid_argument, null, Loader, Platform, path_max_length}
use evmc.Loader.SymbolName.{prefixed_name, prefixed_name_size, name_pos}
use evmc.Loader.SymbolName.Refines.{symbol_name, prefixed_name-symbol_name}
use evmc.Loader.Load.{Loaded, evmc_load}

-- A file name that is refused before anything is opened.
abbrev pub IsBadFileName : Option Text → Type 0
IsBadFileName none = Unit
IsBadFileName (some filename) = (length filename ≡ 0) ⊎ (path_max_length < length filename)

IsBadFileName-cases : (filename : Option Text) → IsBadFileName filename ⊎ (¬ IsBadFileName filename)
IsBadFileName-cases filename = ground arith

-- The number of calls that opened, and that closed, a handle.
unfoldable pub opens : ℕ → History → ℕ
opens k [] = 0
opens k (opened filename (some h) ∷ es) = (if h == k then 1 else 0) + opens k es
opens k (_ ∷ es) = opens k es

unfoldable pub closes : ℕ → History → ℕ
closes k [] = 0
closes k (closed h ∷ es) = (if h == k then 1 else 0) + closes k es
closes k (_ ∷ es) = closes k es

module _ (p : Platform) (array : Text) (filename : Option Text) (s : Loader) where
  abbrev result : Loaded
  result = evmc_load p array filename s

  -- A create function is returned exactly with the code for success, and the code is written where
  -- the caller gave a place for it.
  pub evmc_load-ec :
      ((result.create_fn ≡ none) ↔ (result.ec ≢ loader_success))
      × (result.loader.error_code ≡ Option.map (λ old. result.ec) s.error_code)
  unfolding evmc_load
  evmc_load-ec = ground arith

  refused_code : (result.ec ≡ invalid_argument) ↔ IsBadFileName filename
  unfolding evmc_load
  refused_code = ground arith

  refused_history : IsBadFileName filename → result.loader.history ≡ s.history
  unfolding evmc_load
  refused_history bad = ground arith

  opening_grows : ¬ IsBadFileName filename → length s.history < length result.loader.history
  unfolding evmc_load
  opening_grows good = ground arith

  calls_nothing_iff : (result.loader.history ≡ s.history) ↔ IsBadFileName filename
  calls_nothing_iff = (
    (λ same. elim (IsBadFileName-cases filename) [
      | inl bad ↦ bad
      | inr good ↦ absurd (omega (arith, opening_grows good, ap length same))
    ]),
    refused_history,
  )

  -- The code for an invalid argument is answered exactly where the file name is null, empty or longer
  -- than PATH_MAX_LENGTH, and exactly there nothing outside is called.
  pub evmc_load-invalid_argument :
      ((result.ec ≡ invalid_argument) ↔ IsBadFileName filename)
      × ((result.loader.history ≡ s.history) ↔ IsBadFileName filename)
  evmc_load-invalid_argument = (refused_code, calls_nothing_iff)

  -- A failed load closes each handle as often as it opens it.
  pub evmc_load-closes :
      (k : ℕ)
      → result.create_fn ≡ none
      → opens k result.loader.history + closes k s.history
        ≡ closes k result.loader.history + opens k s.history
  unfolding evmc_load opens closes
  evmc_load-closes k e = ground arith

  pub evmc_load-message : (result.ec ≡ loader_success → result.loader.last_error_msg ≡ null)
  unfolding evmc_load
  evmc_load-message e = ground arith

-- The create function of a library: looked up by the name made from its path, and if that is not
-- found, by the common name. `h` is what was called before.
abbrev derived : Text → Text
derived path = symbol_name (name_pos path)

module _ (p : Platform) (h : History) (path : Text) where
  abbrev first_look : ℕ → Option ℕ
  first_look k = p.dll_get_create_fn (opened path (some k) ∷ h) k (derived path)

  abbrev second_look : ℕ → Option ℕ
  second_look k =
      p.dll_get_create_fn (looked_up k (derived path) none ∷ opened path (some k) ∷ h) k
        (text "evmc_create")

  -- The create function `f` that is found in the library `k`.
  abbrev pub Resolves : ℕ → ℕ → Type 0
  Resolves k f = (first_look k ≡ some f) ⊎ ((first_look k ≡ none) × (second_look k ≡ some f))

module _ (p : Platform) (array path : Text) (s : Loader) where
  found_fn :
      (k : ℕ)
      → cstr (prefixed_name array path) ≡ derived path
      → p.dll_open s.history path ≡ some k
      → ¬ IsBadFileName (some path)
      → (f : ℕ)
      → ((evmc_load p array (some path) s).create_fn ≡ some f) ↔ Resolves p s.history path k f
  unfolding evmc_load
  found_fn k name opens_it good f = ground arith

  found_needs :
      (f : ℕ)
      → (evmc_load p array (some path) s).create_fn ≡ some f
      → (¬ IsBadFileName (some path)) × (p.dll_open s.history path ≢ none)
  unfolding evmc_load
  found_needs f e = ground arith

  -- The load finds the function `f` exactly when the file name is a good one, the system opens the
  -- library, and `f` answers there to the name made from the path or, failing that, to
  -- "evmc_create". The path is a string, and `array` is what the array of the name holds at
  -- first.
  pub evmc_load-Resolves :
      (f : ℕ)
      → length array ≡ prefixed_name_size
      → IsString path
      → ((evmc_load p array (some path) s).create_fn ≡ some f) ↔ (
          (¬ IsBadFileName (some path))
          × ((k : ℕ) × (p.dll_open s.history path ≡ some k) × Resolves p s.history path k f))
  evmc_load-Resolves f size ok =
      let name = prefixed_name-symbol_name array path size ok in
      (
        (λ e.
            let (good, opens_it) = found_needs f e in
            elim (Option-cases (p.dll_open s.history path)) [
              | inl shut ↦ absurd (opens_it shut)
              | inr (k, ek) ↦ (good, (k, ek, (found_fn k name ek good f).0 e))
            ]),
        (λ (good, (k, ek, found)). (found_fn k name ek good f).1 found),
      )
