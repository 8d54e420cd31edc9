-- ===== src/Loader/Configure/RoundTrip.antt =====
-- A configuration written from a path and options, `<path> ("," <name> "=" <value>)*`, is read back.
use evmc.Base.{append-nil, ℕ, ◌≡◌, refl, ap, ◌∙◌, ◌≢◌, List, [], ◌∷◌, ◌++◌, arith}
use mathlib.Core.Path.{ap₂}
use evmc.CString.{Text}
use evmc.CString.Laws.{Avoids}
use evmc.Loader.Configure.{get_token}
use evmc.Loader.Configure.Tokens.{
  get_token-cons, get_token-nil, tokens, tokens-get_token, parse_options,
}

get_token-append : (t rest : Text) (c : ℕ) → Avoids c t → get_token (t ++ (c ∷ rest)) c ≡ (t, rest)
get_token-append [] rest c h = ground (arith, get_token-cons c rest c)
get_token-append (b ∷ t) rest c (hb, ht) =
    ground (arith, get_token-cons b (t ++ (c ∷ rest)) c, get_token-append t rest c ht)

get_token_all : (t : Text) (c : ℕ) → Avoids c t → get_token t c ≡ (t, [])
get_token_all [] c h = get_token-nil c
get_token_all (b ∷ t) c (hb, ht) = ground (arith, get_token-cons b t c, get_token_all t c ht)

-- "name=value"
abbrev pub option_text : Text × Text → Text
option_text (name, value) = name ++ (b'=' ∷ value)

abbrev pub options_text : List (Text × Text) → Text
options_text [] = []
options_text (o ∷ os) = b',' ∷ (option_text o ++ options_text os)

-- The configuration of a path and options.
unfoldable pub config_text : Text → List (Text × Text) → Text
config_text path os = path ++ options_text os

-- Names have neither ',' nor '=', values have no ','.
abbrev pub AreOptions : List (Text × Text) → Type 0
AreOptions [] = Unit
AreOptions ((name, value) ∷ os) =
    Avoids b',' name × Avoids b'=' name × Avoids b',' value × AreOptions os

Avoids-append : (c : ℕ) (s t : Text) → Avoids c s → Avoids c t → Avoids c (s ++ t)
Avoids-append c [] t hs ht = ht
Avoids-append c (b ∷ s) t (hb, hs) ht = (hb, Avoids-append c s t hs ht)

-- The options without the comma in front of the first.
abbrev pub behind_comma : List (Text × Text) → Text
behind_comma [] = []
behind_comma (o ∷ os) = option_text o ++ options_text os

get_token-options_text :
    (path : Text) (os : List (Text × Text))
    → Avoids b',' path
    → get_token (path ++ options_text os) b',' ≡ (path, behind_comma os)
get_token-options_text path [] h = rw append-nil (get_token_all path b',' h)
get_token-options_text path (o ∷ os) h = get_token-append path (behind_comma (o ∷ os)) b',' h

tokens_of_nonempty :
    (s t rest : Text) (c : ℕ) → get_token s c ≡ (t, rest) → s ≢ [] → tokens c s ≡ t ∷ tokens c rest
tokens_of_nonempty [] t rest c e nonempty = absurd (nonempty refl)
tokens_of_nonempty (b ∷ s) t rest c e nonempty =
    tokens-get_token b s c ∙ ap (λ (p : Text × Text). p.0 ∷ tokens c p.1) e

option_text-ne-nil : (name value rest : Text) → option_text (name, value) ++ rest ≢ []
option_text-ne-nil [] value rest e = cc
option_text-ne-nil (b ∷ name) value rest e = cc

parse_options-tokens :
    (os : List (Text × Text)) → AreOptions os → parse_options (tokens b',' (behind_comma os)) ≡ os
unfolding parse_options
parse_options-tokens [] h = unfold tokens in refl
parse_options-tokens ((name, value) ∷ os) (comma, eq, value_comma, hs) =
    let o = option_text (name, value) in
    ap parse_options (
      tokens_of_nonempty (o ++ options_text os) o (behind_comma os) b','
        (get_token-options_text o os
          (Avoids-append b',' name (b'=' ∷ value) comma (omega arith, value_comma)))
        (option_text-ne-nil name value (options_text os)))
    ∙ ap₂ (λ (p : Text × Text) (ps : List (Text × Text)). p ∷ ps)
        (get_token-append name value b'=' eq) (parse_options-tokens os hs)

-- What the two calls of `get_token` make of such a configuration.
pub config_text-read :
    (path : Text) (os : List (Text × Text))
    → Avoids b',' path
    → AreOptions os
    → (get_token (config_text path os) b',' ≡ (path, behind_comma os))
      × (parse_options (tokens b',' (behind_comma os)) ≡ os)
unfolding config_text
config_text-read path os hp ho = (get_token-options_text path os hp, parse_options-tokens os ho)
