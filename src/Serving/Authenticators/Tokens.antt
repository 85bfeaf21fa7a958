-- ===== src/Serving/Authenticators/Tokens.antt =====
-- Bearer headers and the static tokens: src/fl_op/serving/security/authenticators.py.
use fl_op.Base.{
  ◌≡◌, refl, ◌≢◌, Option, none, some, true, false, List, [], ◌∷◌, ◌++◌, All, Text, text_eq, codes,
  ◌==◌, if◌then◌else◌, arith, Bool-cases, inl, inr,
}
use fl_op.Base.Dict.{Dict, get}
use fl_op.Base.Strip.{strip, lower, partition, is_empty}
use fl_op.Serving.Errors.{authentication, security, type_error, Outcome, ok, raise}
use fl_op.Serving.Principal.{Principal, scope_wildcard}
use fl_op.Serving.Authenticators.{
  Crypto, parse_bearer, compare_digest, is_ascii, match_token, token_principal, normalize,
}

-- The header that a client sends for its token is read back as that token.
parse_bearer_roundtrip :
    (token : Text)
    → strip token ≡ token
    → token ≢ []
    → parse_bearer (some (codes "Bearer " ++ token)) ≡ ok token
unfolding parse_bearer partition lower
parse_bearer_roundtrip token trimmed present = ground arith

module _ (crypto : Crypto) where
  -- What the dictionary says of a token that was supplied.
  abbrev pub looked_up : Text → Option (List Text) → Outcome Principal
  looked_up supplied none = raise (security (authentication (codes "invalid bearer token")))
  looked_up supplied (some scopes) = ok (token_principal crypto supplied scopes)

  -- Over ASCII tokens the scan that compares every token is a dictionary lookup.
  pub match_token-get :
      (supplied : Text) (tokens : Dict Text (List Text))
      → is_ascii supplied ≡ true
      → All (λ t. is_ascii t.0 ≡ true) tokens
      → match_token crypto supplied tokens ≡ looked_up supplied (get supplied tokens)
  unfolding match_token get compare_digest
  match_token-get supplied [] ascii h = refl
  match_token-get supplied ((token, scopes) ∷ tokens) ascii h = ground (
    arith,
    text_eq.agrees_iff supplied token,
    text_eq.agrees_iff token supplied,
    match_token-get supplied tokens ascii h.1,
  )

  -- One token that is not ASCII makes `compare_digest` raise a TypeError, which is no SecurityError.
  pub match_token_non_ascii :
      (supplied token : Text) (scopes : List Text) (tokens : Dict Text (List Text))
      → is_ascii supplied ≡ false
      → match_token crypto supplied ((token, scopes) ∷ tokens) ≡ raise type_error
  unfolding match_token compare_digest
  match_token_non_ascii supplied token scopes tokens h = ground arith

-- A static token with no scopes of its own is a wildcard; any other keeps its scopes.
pub normalize-get :
    (token : Text) (tokens : Dict Text (List Text)) (scopes : List Text)
    → get token (normalize tokens) ≡ some scopes
    → (given : List Text) × (get token tokens ≡ some given)
      × (scopes ≡ (if is_empty given then scope_wildcard ∷ [] else given))
unfolding normalize get
normalize-get token [] scopes h = cc
normalize-get token ((t, given) ∷ tokens) scopes h = elim (Bool-cases (t == token)) [
  | inl same ↦ (given, ground arith, ground arith)
  | inr other ↦ rw other (normalize-get token tokens scopes (ground arith))
]
