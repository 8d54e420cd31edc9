-- ===== src/Loader/SymbolName/FileName.antt =====
-- What `name_pos` points to.
use evmc.Base.{
  ℕ, suc, ◌≡◌, ◌⊎◌, inl, inr, refl, [], ◌∷◌, ◌++◌, take, drop, some, true, false, arith,
  Option-cases, Bool-cases, length,
}
use evmc.CString.{Text, text, IsString, starts_with, strrchr}
use evmc.CString.Laws.{Avoids, IsString-drop, strrchr-eq_none, strrchr-eq_some}
use evmc.Loader.SymbolName.{file_name, name_pos}

file_name_of :
    (path : Text) (i : ℕ) → strrchr path b'/' ≡ some i → file_name path ≡ drop (suc i) path
unfolding file_name
file_name_of path i e = rw (e, file_name)

-- The file name is what follows the last '/', or the whole path if it has none.
pub path-file_name :
    (path : Text)
    → Avoids b'/' (file_name path)
      × ((path ≡ file_name path) ⊎ ((dir : Text) × (path ≡ dir ++ (b'/' ∷ file_name path))))
path-file_name path = elim (Option-cases (strrchr path b'/')) [
  | inl e ↦ unfold file_name in rw (e, file_name) (strrchr-eq_none path b'/' e, inl refl)
  | inr (i, e) ↦
      let (split, avoids) = strrchr-eq_some path b'/' i e in
      rw (file_name_of path i e) (avoids, inr (take i path, split))
]

IsString-file_name : (path : Text) → IsString path → IsString (file_name path)
IsString-file_name path h = elim (Option-cases (strrchr path b'/')) [
  | inl e ↦ unfold file_name in rw (e, file_name) h
  | inr (i, e) ↦ rw (file_name_of path i e) (IsString-drop (suc i) path h)
]

pub IsString-name_pos : (path : Text) → IsString path → IsString (name_pos path)
unfolding name_pos
IsString-name_pos path h = elim (Bool-cases (starts_with (file_name path) (text "lib"))) [
  | inl e ↦ rw (e, name_pos) (IsString-drop 3 (file_name path) (IsString-file_name path h))
  | inr e ↦ rw (e, name_pos) (IsString-file_name path h)
]

starts_with-split : (s p : Text) → starts_with s p ≡ true → s ≡ p ++ drop (length p) s
unfolding starts_with
starts_with-split s [] h = refl
starts_with-split [] (b ∷ p) h = cc
starts_with-split (c ∷ s) (b ∷ p) h = ground (arith, starts_with-split s p)

-- A "lib" in front of the file name is skipped, and nothing else is.
pub name_pos-file_name :
    (path : Text)
    → ((starts_with (file_name path) (text "lib") ≡ true)
        × (file_name path ≡ text "lib" ++ name_pos path))
      ⊎ ((starts_with (file_name path) (text "lib") ≡ false) × (name_pos path ≡ file_name path))
unfolding name_pos
name_pos-file_name path = elim (Bool-cases (starts_with (file_name path) (text "lib"))) [
  | inl e ↦ inl (e, rw (e, name_pos) (starts_with-split (file_name path) (text "lib") e))
  | inr e ↦ inr (e, rw (e, name_pos))
]
