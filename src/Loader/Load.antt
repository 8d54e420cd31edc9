-- ===== src/Loader/Load.antt =====
-- `evmc_load`
pub mod Laws
use evmc.Base.{ℕ, ◌+◌, Option, none, some, ◌∷◌, ◌++◌, ◌==◌, ltb, if◌then◌else◌}
use evmc.Base.Int.{pos}
use evmc.CString.{Text, text, strlen, cstr}
use evmc.CString.Decimal.{decimal, int_of_size}
use evmc.Helpers.Vm.{opened, got_error, looked_up, closed}
use evmc.Loader.Types.{
  LoaderErrorCode, loader_success, cannot_open, symbol_not_found, invalid_argument, null, to_system,
  Loader, Platform, path_max_length, log, write_error_code,
}
use evmc.Loader.SymbolName.{prefixed_name}
use evmc.Loader.Message.{set_error}

-- `create_fn` and `ec` where the function ends, and the loader there.
pub record Loaded : Type 0 where
  pub create_fn : Option ℕ
  pub ec : LoaderErrorCode
  pub loader : Loader

-- A `goto exit` behind a call of `set_error`.
abbrev pub failed : LoaderErrorCode × Loader → Loaded
failed (e, s) = record { create_fn = none; ec = e; loader = s }

abbrev pub too_long_message : Text → Text
too_long_message filename =
    text "invalid argument: file name is too long ("
    ++ (decimal (int_of_size (strlen filename))
        ++ (text ", maximum allowed length is " ++ (decimal (pos path_max_length) ++ text ")")))

module _ (p : Platform) where
  -- `DLL_GET_CREATE_FN(handle, name)`
  unfoldable pub look_up : ℕ → Text → Loader → Option ℕ × Loader
  look_up handle name s =
      let fn = p.dll_get_create_fn s.history handle name in (fn, log (looked_up handle name fn) s)

  -- The branch of a null handle.
  unfoldable pub not_opened : Text → Loader → Loaded
  unfolding set_error
  not_opened filename s =
      let m = p.dll_get_error_msg s.history in
      let s = log (got_error m) s in
      elim m [
        | some t ↦ failed (cannot_open, record s { last_error_msg = to_system t })
        | none ↦ failed (
            set_error cannot_open (text "cannot open " ++ filename)
              (record s { last_error_msg = null }))
      ]

  -- The statements behind the two lookups.
  unfoldable pub found_or_close : ℕ → Text → Option ℕ × Loader → Loaded
  unfolding set_error
  found_or_close handle filename (some fn, s) = record {
    create_fn = some fn;
    ec = loader_success;
    loader = s;
  }
  found_or_close handle filename (none, s) = failed (
      set_error symbol_not_found (text "EVMC create function not found in " ++ filename)
        (log (closed handle) s))

  -- From `create_fn = DLL_GET_CREATE_FN(handle, prefixed_name)` on; `name` is `prefixed_name`.
  unfoldable pub find_create_fn : ℕ → Text → Text → Loader → Loaded
  unfolding look_up found_or_close
  find_create_fn handle name filename s =
      let (fn, s') = look_up handle name s in
      elim fn [
        | some f ↦ found_or_close handle filename (some f, s')
        | none ↦ found_or_close handle filename (look_up handle (text "evmc_create") s')
      ]

  -- The body up to `exit`. `array` is what the uninitialised `prefixed_name` holds.
  unfoldable pub load_body : Text → Option Text → Loader → Loaded
  unfolding not_opened find_create_fn set_error
  load_body array none s =
      failed (set_error invalid_argument (text "invalid argument: file name cannot be null") s)
  load_body array (some filename) s =
      if strlen filename == 0
      then failed
          (set_error invalid_argument (text "invalid argument: file name cannot be empty") s)
      else if ltb path_max_length (strlen filename)
      then failed (set_error invalid_argument (too_long_message filename) s)
      else (let handle = p.dll_open s.history filename in
          let s = log (opened filename handle) s in
          elim handle [
            | none ↦ not_opened filename s
            | some h ↦ find_create_fn h (cstr (prefixed_name array filename)) filename s
          ])

  unfoldable pub evmc_load : Text → Option Text → Loader → Loaded
  unfolding load_body
  evmc_load array filename s =
      let r = load_body array filename (record s { last_error_msg = null }) in
      record r { loader = write_error_code r.ec r.loader }
