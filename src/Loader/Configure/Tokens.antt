-- ===== src/Loader/Configure/Tokens.antt =====
-- What `get_token` cuts off, and the syntax of a configuration by lists.
use evmc.Base.{
  ℕ, suc, ◌≡◌, ◌⊎◌, ◌≤◌, refl, inl, inr, none, some, Option-cases, List, [], ◌∷◌, ◌++◌, take, drop,
  length, length-drop, arith, ◌==◌, if◌then◌else◌,
}
use evmc.CString.{Text, strchr}
use evmc.CString.Laws.{Avoids, strchr-eq_none, strchr-eq_some}
use evmc.Loader.Configure.{get_token}

get_token_found :
    (s : Text) (c i : ℕ) → strchr s c ≡ some i → get_token s c ≡ (take i s, drop (suc i) s)
unfolding get_token
get_token_found s c i e = rw (e, get_token)

get_token_missing : (s : Text) (c : ℕ) → strchr s c ≡ none → get_token s c ≡ (s, [])
unfolding get_token
get_token_missing s c e = rw (e, get_token)

-- The token has no delimiter in it, and the string is the token alone, or the token, a delimiter
-- and the rest.
pub get_token_lem :
    (s : Text) (c : ℕ)
    → Avoids c (get_token s c).0
      × (((s ≡ (get_token s c).0) × ((get_token s c).1 ≡ []))
          ⊎ (s ≡ (get_token s c).0 ++ (c ∷ (get_token s c).1)))
get_token_lem s c = elim (Option-cases (strchr s c)) [
  | inl e ↦ rw (get_token_missing s c e) (strchr-eq_none s c e, inl (refl, refl))
  | inr (i, e) ↦
      let (split, avoids) = strchr-eq_some s c i e in
      rw (get_token_found s c i e) (avoids, inr split)
]

-- Where the string is not empty, the rest is shorter.
pub get_token_shorter : (b : ℕ) (s : Text) (c : ℕ) → length (get_token (b ∷ s) c).1 ≤ length s
get_token_shorter b s c = elim (Option-cases (strchr (b ∷ s) c)) [
  | inl e ↦ rw (get_token_missing (b ∷ s) c e) (omega arith)
  | inr (i, e) ↦ rw (get_token_found (b ∷ s) c i e) (omega (arith, length-drop {0} i s))
]

-- The tokens of a string, by recursion on it. A delimiter at the end opens no further token.
abbrev put_first : ℕ → List Text → List Text
put_first b [] = (b ∷ []) ∷ []
put_first b (t ∷ ts) = (b ∷ t) ∷ ts

unfoldable pub tokens : ℕ → Text → List Text
tokens c [] = []
tokens c (b ∷ s) = let rest = tokens c s in if b == c then [] ∷ rest else put_first b rest

pub get_token-cons :
    (b : ℕ) (s : Text) (c : ℕ)
    → get_token (b ∷ s) c ≡ (if b == c then ([], s) else (b ∷ (get_token s c).0, (get_token s c).1))
unfolding get_token strchr
get_token-cons b s c = ground arith

pub get_token-nil : (c : ℕ) → get_token [] c ≡ ([], [])
unfolding get_token strchr
get_token-nil c = refl

-- One round of the loop takes the first of the tokens.
pub tokens-get_token :
    (b : ℕ) (s : Text) (c : ℕ)
    → tokens c (b ∷ s) ≡ (get_token (b ∷ s) c).0 ∷ tokens c (get_token (b ∷ s) c).1
unfolding tokens
tokens-get_token b [] c = ground (arith, get_token-cons b [] c, get_token-nil c)
tokens-get_token b (d ∷ s) c = ground (arith, get_token-cons b (d ∷ s) c, tokens-get_token d s c)

-- The options of a configuration behind its path: names with values, which are empty if not given.
unfoldable pub parse_options : List Text → List (Text × Text)
parse_options [] = []
parse_options (t ∷ ts) = get_token t b'=' ∷ parse_options ts
