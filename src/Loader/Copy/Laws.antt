-- ===== src/Loader/Copy/Laws.antt =====
-- What `strcpy_sx` leaves in the destination.
use evmc.Base.{
  append_assoc, ℕ, suc, ◌≤◌, ◌<◌, ◌≡◌, refl, ap, ◌∙◌, [], ◌∷◌, ◌++◌, length, length-append, drop,
  arith, leb, ltb, if◌then◌else◌, Bool-cases, inl, inr, true, false,
}
use evmc.CString.{Text, IsString, cstr, memcpy}
use evmc.CString.Laws.{Holds, cstr-append, memcpy-eq_append}
use evmc.Loader.Copy.{null_first, strcpy_sx}

pub copied :
    (dest src : Text)
    → length src < length dest
    → memcpy dest (src ++ (0 ∷ [])) ≡ src ++ (0 ∷ drop (length (src ++ (0 ∷ []))) dest)
copied dest src h =
    memcpy-eq_append dest (src ++ (0 ∷ [])) (omega (arith, length-append src (0 ∷ [])))
    ∙ append_assoc src (0 ∷ []) _

-- `strcpy_sx` leaves a string in the array: the source, or the empty one if it does not fit.
pub strcpy_sx-Holds :
    (dest : Text) (size : ℕ) (src : Text)
    → 0 < size
    → size ≤ length dest
    → Holds (strcpy_sx dest size src).1 (if ltb (length src) size then src else [])
unfolding strcpy_sx
strcpy_sx-Holds [] size src hs h = absurd (omega arith)
strcpy_sx-Holds (d ∷ dest) size src hs h = elim (Bool-cases (leb size (length src))) [
  | inl big ↦ let long : ltb (length src) size ≡ false = ground arith in (dest, rw (big, long) refl)
  | inr small ↦
      let fits : ltb (length src) size ≡ true = ground arith in
      (
        drop (length (src ++ (0 ∷ []))) (d ∷ dest),
        rw (small, fits) (copied (d ∷ dest) src (ground arith)),
      )
]

drop_past : (s : Text) (c : ℕ) (rest : Text) → drop (suc (length s)) (s ++ (c ∷ rest)) ≡ rest
drop_past [] c rest = refl
drop_past (b ∷ s) c rest = drop_past s c rest

strcpy_sx_fits :
    (dest : Text) (size : ℕ) (src : Text)
    → length src < size
    → strcpy_sx dest size src ≡ (0, memcpy dest (src ++ (0 ∷ [])))
unfolding strcpy_sx
strcpy_sx_fits dest size src h = let e : leb size (length src) ≡ false = ground arith in rw e

strcpy_sx_big :
    (dest : Text) (size : ℕ) (src : Text)
    → size ≤ length src
    → strcpy_sx dest size src ≡ (1, null_first dest)
unfolding strcpy_sx
strcpy_sx_big dest size src h = let e : leb size (length src) ≡ true = ground arith in rw e

-- For a source that is a string and a size that is not 0 and at most that of the destination: where
-- the source fits with its terminator the result is 0, the destination holds the source, and
-- what lies behind the terminator is unchanged. Where it does not fit the result is 1, the
-- destination holds the empty string, and all but its first byte is unchanged.
pub strcpy_sx_lem :
    (dest : Text) (size : ℕ) (src : Text)
    → 0 < size
    → size ≤ length dest
    → IsString src
    → let (r, dest') = strcpy_sx dest size src in
      let fits = ltb (length src) size in
      (r ≡ (if fits then 0 else 1))
      × (cstr dest' ≡ (if fits then src else []))
      × (drop (if fits then suc (length src) else 1) dest'
          ≡ drop (if fits then suc (length src) else 1) dest)
strcpy_sx_lem [] size src hs h ok = absurd (omega arith)
strcpy_sx_lem (d ∷ dest) size src hs h ok = elim (Bool-cases (ltb (length src) size)) [
  | inl fits ↦
      let lt : length src < size = ground arith in
      rw (fits, strcpy_sx_fits (d ∷ dest) size src lt, copied (d ∷ dest) src (omega arith))
        (refl, cstr-append src _ ok, drop_past src 0 _ ∙ ap (λ n. drop n (d ∷ dest)) appended)
  | inr big ↦
      let le : size ≤ length src = ground arith in
      rw (big, strcpy_sx_big (d ∷ dest) size src le) (refl, unfold cstr in refl, refl)
]
  where
    appended : length (src ++ (0 ∷ [])) ≡ suc (length src)
    appended = omega (arith, length-append src (0 ∷ []))
