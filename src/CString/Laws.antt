-- ===== src/CString/Laws.antt =====
-- Arrays that hold a string: the bytes of the string, its terminator, and whatever follows.
use evmc.Base.{
  ◌≢◌, take, ℕ, zero, suc, ◌≤◌, ◌≡◌, refl, ap, ◌∙◌, [], ◌∷◌, ◌++◌, length, drop, arith, none, some,
}
use evmc.CString.{Text, strchr, strrchr, IsString, cstr, memcpy}

abbrev pub Holds : Text → Text → Type 0
Holds a s = (rest : Text) × (a ≡ s ++ (0 ∷ rest))

pub cstr-append : (s rest : Text) → IsString s → cstr (s ++ (0 ∷ rest)) ≡ s
unfolding cstr
cstr-append [] rest h = refl
cstr-append (c ∷ s) rest (hc, hs) = ground (arith, cstr-append s rest hs)

pub cstr_of_Holds : (a s : Text) → IsString s → Holds a s → cstr a ≡ s
cstr_of_Holds a s h (rest, e) = ap cstr e ∙ cstr-append s rest h

-- What fits is copied, and the rest of the array is left alone.
pub memcpy-eq_append :
    (dest src : Text) → length src ≤ length dest → memcpy dest src ≡ src ++ drop (length src) dest
unfolding memcpy
memcpy-eq_append dest [] h = refl
memcpy-eq_append [] (c ∷ src) h = absurd (omega arith)
memcpy-eq_append (d ∷ dest) (c ∷ src) h =
    ap (λ (a : Text). c ∷ a) (memcpy-eq_append dest src (omega arith))

pub IsString-append : (s t : Text) → IsString s → IsString t → IsString (s ++ t)
IsString-append [] t hs ht = ht
IsString-append (c ∷ s) t (hc, hs) ht = (hc, IsString-append s t hs ht)

-- A byte does not occur in a string.
abbrev pub Avoids : ℕ → Text → Type 0
Avoids c [] = Unit
Avoids c (b ∷ s) = (b ≢ c) × Avoids c s

pub IsString-drop : (n : ℕ) (s : Text) → IsString s → IsString (drop n s)
IsString-drop zero s h = h
IsString-drop (suc n) [] h = tt
IsString-drop (suc n) (c ∷ s) (hc, hs) = IsString-drop n s hs

pub strrchr-eq_none : (s : Text) (c : ℕ) → strrchr s c ≡ none → Avoids c s
unfolding strrchr
strrchr-eq_none [] c h = tt
strrchr-eq_none (b ∷ s) c h = (ground arith, strrchr-eq_none s c (ground arith))

-- The last occurrence splits the string, and what follows has none.
pub strrchr-eq_some :
    (s : Text) (c i : ℕ)
    → strrchr s c ≡ some i
    → (s ≡ take i s ++ (c ∷ drop (suc i) s)) × Avoids c (drop (suc i) s)
unfolding strrchr
strrchr-eq_some [] c i h = cc
strrchr-eq_some (b ∷ s) c zero h = (ground arith, strrchr-eq_none s c (ground arith))
strrchr-eq_some (b ∷ s) c (suc i) h =
    let (e, avoids) = strrchr-eq_some s c i (ground arith) in (ap (λ (t : Text). b ∷ t) e, avoids)

pub strchr-eq_none : (s : Text) (c : ℕ) → strchr s c ≡ none → Avoids c s
unfolding strchr
strchr-eq_none [] c h = tt
strchr-eq_none (b ∷ s) c h = (ground arith, strchr-eq_none s c (ground arith))

-- The first occurrence splits the string, and what precedes it has none.
pub strchr-eq_some :
    (s : Text) (c i : ℕ)
    → strchr s c ≡ some i
    → (s ≡ take i s ++ (c ∷ drop (suc i) s)) × Avoids c (take i s)
unfolding strchr
strchr-eq_some [] c i h = cc
strchr-eq_some (b ∷ s) c zero h = (ground arith, tt)
strchr-eq_some (b ∷ s) c (suc i) h =
    let (e, avoids) = strchr-eq_some s c i (ground arith) in
    (ap (λ (t : Text). b ∷ t) e, (ground arith, avoids))
