-- ===== src/Loader/SymbolName/Refines.antt =====
-- The array code meets a description of the name by lists.
use evmc.Base.{
  ℕ, zero, suc, ◌+◌, ◌≤◌, ◌<◌, ◌≡◌, ◌≢◌, refl, ap, ◌∙◌, [], ◌∷◌, ◌++◌, length, length-drop, drop,
  arith, ◌==◌, ltb, if◌then◌else◌, Bool-cases, inl, inr,
}
use evmc.CString.{Text, strlen, IsString, cstr}
use evmc.CString.Laws.{Holds, cstr-append, IsString-append}
use evmc.Loader.Types.{path_max_length}
use evmc.Loader.Copy.Laws.{copied, strcpy_sx-Holds}
use evmc.Loader.Copy.{strcpy_sx}
use evmc.Loader.SymbolName.FileName.{IsString-name_pos}
use evmc.Loader.SymbolName.{
  prefix, at, name_pos, trim_extensions, replace_dashes, prefixed_name_size, base_name_size,
  prefixed_name,
}

-- The bytes before the first '.'.
unfoldable pub without_extensions : Text → Text
without_extensions [] = []
without_extensions (c ∷ s) = if c == b'.' then [] else c ∷ without_extensions s

-- Every '-' replaced by '_'.
unfoldable pub dashes_replaced : Text → Text
dashes_replaced [] = []
dashes_replaced (c ∷ s) = (if c == b'-' then b'_' else c) ∷ dashes_replaced s

-- A name that does not fit its place in the array is dropped.
abbrev pub fitting : Text → Text
fitting name = if ltb (length name) path_max_length then name else []

trim_step : (c : ℕ) (a : Text) → 0 < c → c ≢ b'.' → trim_extensions (c ∷ a) ≡ c ∷ trim_extensions a
unfolding trim_extensions
trim_step c a hc hd = ground arith

trim-Holds :
    (s rest : Text) → IsString s → Holds (trim_extensions (s ++ (0 ∷ rest))) (without_extensions s)
unfolding without_extensions
trim-Holds [] rest h = (rest, unfold trim_extensions in refl)
trim-Holds (c ∷ s) rest (hc, hs) = elim (Bool-cases (c == b'.')) [
  | inl dot ↦ (s ++ (0 ∷ rest), unfold trim_extensions in ground arith)
  | inr other ↦
      let (r, e) = trim-Holds s rest hs in (r, ground (arith, trim_step c (s ++ (0 ∷ rest))))
]

dash_step :
    (fuel c : ℕ) (a : Text)
    → 0 < c
    → c ≢ b'-'
    → replace_dashes (suc fuel) (c ∷ a) ≡ c ∷ replace_dashes (suc fuel) a
unfolding replace_dashes
dash_step fuel c a hc hd = ground arith

dash_here :
    (fuel : ℕ) (a : Text) → replace_dashes (suc fuel) (b'-' ∷ a) ≡ b'_' ∷ replace_dashes fuel a
unfolding replace_dashes
dash_here fuel a = refl

replace_dashes-append :
    (fuel : ℕ) (s rest : Text)
    → IsString s
    → length s < fuel
    → replace_dashes fuel (s ++ (0 ∷ rest)) ≡ dashes_replaced s ++ (0 ∷ rest)
unfolding dashes_replaced
replace_dashes-append zero s rest h lt = absurd (omega arith)
replace_dashes-append (suc fuel) [] rest h lt = unfold replace_dashes in refl
replace_dashes-append (suc fuel) (c ∷ s) rest (hc, hs) lt = ground (
  arith,
  dash_here fuel (s ++ (0 ∷ rest)),
  dash_step fuel c (s ++ (0 ∷ rest)),
  replace_dashes-append fuel s rest,
  replace_dashes-append (suc fuel) s rest,
)

-- The same name by lists. `name` is what `name_pos` points to.
unfoldable pub symbol_name : Text → Text
unfolding without_extensions dashes_replaced
symbol_name name = prefix ++ dashes_replaced (without_extensions (fitting name))

at-prefix : (f : Text → Text) (a : Text) → at (strlen prefix) f (prefix ++ a) ≡ prefix ++ f a
at-prefix f a = refl

without_extensions-prefix :
    (s : Text) → without_extensions (prefix ++ s) ≡ prefix ++ without_extensions s
unfolding without_extensions
without_extensions-prefix s = refl

IsString-without_extensions : (s : Text) → IsString s → IsString (without_extensions s)
unfolding without_extensions
IsString-without_extensions [] h = tt
IsString-without_extensions (c ∷ s) (hc, hs) = elim (Bool-cases (c == b'.')) [
  | inl e ↦ rw e tt
  | inr e ↦ rw e (hc, IsString-without_extensions s hs)
]

IsString-dashes_replaced : (s : Text) → IsString s → IsString (dashes_replaced s)
unfolding dashes_replaced
IsString-dashes_replaced [] h = tt
IsString-dashes_replaced (c ∷ s) (hc, hs) = (ground arith, IsString-dashes_replaced s hs)

IsString-fitting : (s : Text) → IsString s → IsString (fitting s)
IsString-fitting s h = elim (Bool-cases (ltb (length s) path_max_length)) [
  | inl e ↦ rw e h
  | inr e ↦ rw e tt
]

length-without_extensions : (s : Text) → length (without_extensions s) ≤ length s
unfolding without_extensions
length-without_extensions [] = omega arith
length-without_extensions (c ∷ s) = ground (arith, length-without_extensions s)

length-fitting : (s : Text) → length (fitting s) < path_max_length
length-fitting s = ground arith

-- The statements after the name is in its place, on an array that holds the prefix and the name.
finished :
    (name rest : Text)
    → IsString name
    → length name < path_max_length
    → cstr (
        at
          (strlen prefix)
          (replace_dashes base_name_size)
          (trim_extensions (prefix ++ (name ++ (0 ∷ rest)))))
      ≡ prefix ++ dashes_replaced (without_extensions name)
finished name rest ok small =
    let (r, e) = trim-Holds (prefix ++ name) rest (IsString-append prefix name (omega arith) ok) in
    let short = without_extensions name in
    let short_ok : IsString short = IsString-without_extensions name ok in
    let e' = e ∙ ap (λ (t : Text). t ++ (0 ∷ r)) (without_extensions-prefix name) in
    ap (λ (t : Text). cstr (at (strlen prefix) (replace_dashes base_name_size) t)) e'
    ∙ ap (λ (t : Text). cstr (prefix ++ t))
        (replace_dashes-append base_name_size short r short_ok
          (omega (arith, length-without_extensions name)))
    ∙ cstr-append (prefix ++ dashes_replaced short) r
        (IsString-append prefix _ (omega arith) (IsString-dashes_replaced short short_ok))

prefix_copied :
    (a : Text)
    → length a ≡ prefixed_name_size
    → (b : Text) × ((strcpy_sx a prefixed_name_size prefix).1 ≡ prefix ++ b)
      × (length b ≡ path_max_length + 1)
prefix_copied a h = (
  0 ∷ drop (strlen prefix + 1) a,
  unfold strcpy_sx in copied a prefix (omega arith),
  omega (arith, length-drop {0} (strlen prefix + 1) a),
)

-- For a file name that is a string, and whatever the array (of `prefixed_name_size` bytes) held, it ends
-- up with the name that `symbol_name` describes: the prefix, and of what `name_pos` points to the
-- bytes before the first '.', each '-' replaced by '_', or nothing if it has 4096 bytes or more.
pub prefixed_name-symbol_name :
    (a filename : Text)
    → length a ≡ prefixed_name_size
    → IsString filename
    → cstr (prefixed_name a filename) ≡ symbol_name (name_pos filename)
unfolding prefixed_name symbol_name
prefixed_name-symbol_name a filename h ok =
    let name = name_pos filename in
    let (b, e, lb) = prefix_copied a h in
    let (rest, e') = strcpy_sx-Holds b path_max_length name (omega arith) (omega arith) in
    let copy = λ (c : Text). (strcpy_sx c path_max_length name).1 in
    let finish =
      λ (c : Text). cstr (at (strlen prefix) (replace_dashes base_name_size) (trim_extensions c)) in
    ap (λ (c : Text). finish (at (strlen prefix) copy c)) e
    ∙ ap (λ (c : Text). finish (prefix ++ c)) e'
    ∙ finished (fitting name) rest (IsString-fitting name (IsString-name_pos filename ok))
        (length-fitting name)
