-- ===== src/Serving/Authenticators.antt =====
-- From an Authorization header to a principal: src/fl_op/serving/security/authenticators.py.
-- SHA-256 and PyJWT are not of this repository: `Crypto` and `Oidc` hold what is called of them.
pub mod Tokens
use fl_op.Base.{
  ℕ, ◌≡◌, Option, none, some, Bool, true, false, ◌&&◌, ◌||◌, not, List, [], ◌∷◌, ◌++◌, map, all,
  or_else, ltb, Text, text_eq, codes, ◌==◌, contains, if◌then◌else◌,
}
use fl_op.Base.Dict.{Dict, get}
use fl_op.Base.Strip.{strip, lower, partition, words, is_empty}
use fl_op.Serving.Errors.{
  authentication, security, type_error, runtime_error, Outcome, ok, raise, ◌>>=◌,
}
use fl_op.Serving.Principal.{Principal, scope_wildcard, anonymous_principal}

unfoldable pub parse_bearer : Option Text → Outcome Text
parse_bearer header =
    let (scheme, supplied) = partition 32 (or_else header []) in
    if not (lower scheme == codes "bearer") || is_empty (strip supplied)
    then raise (security (authentication (codes "missing bearer token")))
    else ok (strip supplied)

-- `secrets.compare_digest` on two `str`: a TypeError unless both are ASCII.
unfoldable pub is_ascii : Text → Bool
is_ascii = all (λ c. ltb c 128)

unfoldable pub compare_digest : Text → Text → Outcome Bool
unfolding is_ascii
compare_digest a b = if is_ascii a && is_ascii b then ok (a == b) else raise type_error

-- `hashlib.sha256(token).hexdigest()[:12]`
pub record Crypto : Type 0 where
  pub token_fingerprint : Text → Text

-- What PyJWT hands back: a claim is a text, a list or tuple of items, or a value of another kind.
-- An item and another value carry what `str` makes of them.
pub data Claim : Type 0 where
  text : Text → Claim
  items : List Text → Text → Claim
  other : Text → Claim

abbrev str : Claim → Text
str (text t) = t
str (items _ t) = t
str (other t) = t

pub record Oidc : Type 0 where
  pub scope_claims : List Text
  -- None if PyJWT is not installed. Else `decode` with the configured key, issuer, audience and
  -- algorithms, where none stands for any exception that it raises.
  pub decode : Option (Text → Option (Dict Text Claim))

pub data Authenticator : Type 0 where
  null : Authenticator
  static : Dict Text (List Text) → Authenticator
  oidc : Oidc → Authenticator

-- `StaticTokenAuthenticator.__init__`: no scope means every scope. None is the ValueError.
unfoldable pub normalize : Dict Text (List Text) → Dict Text (List Text)
normalize [] = []
normalize ((token, scopes) ∷ tokens) =
    (token, (if is_empty scopes then scope_wildcard ∷ [] else scopes)) ∷ normalize tokens

unfoldable pub static_tokens : Dict Text (List Text) → Option Authenticator
unfolding normalize
static_tokens [] = none
static_tokens (t ∷ tokens) = some (static (normalize (t ∷ tokens)))

-- The set of the scopes that the configured claims list, as a list of them.
unfoldable pub claim_scopes : Option Claim → List Text
claim_scopes none = []
claim_scopes (some (text t)) = words t
claim_scopes (some (items l _)) = l
claim_scopes (some (other _)) = []

unfoldable pub extract_scopes : List Text → Dict Text Claim → List Text
unfolding claim_scopes
extract_scopes [] claims = []
extract_scopes (c ∷ cs) claims = claim_scopes (get c claims) ++ extract_scopes cs claims

-- `str(claims.get(name, ""))`
abbrev claim_text : Text → Dict Text Claim → Text
claim_text name claims = elim (get name claims) [ none ↦ [] | some c ↦ str c ]

module _ (crypto : Crypto) where
  open crypto use {token_fingerprint}

  pub token_principal : Text → List Text → Principal
  token_principal token scopes = record {
    subject = codes "token:" ++ token_fingerprint token;
    scopes = scopes;
    token_id = token_fingerprint token;
  }

  -- The loop over `_tokens`.
  unfoldable pub match_token : Text → Dict Text (List Text) → Outcome Principal
  unfolding token_principal
  match_token supplied [] = raise (security (authentication (codes "invalid bearer token")))
  match_token supplied ((token, scopes) ∷ tokens) =
      let rest = match_token supplied tokens in
      compare_digest supplied token >>= λ same.
      if same then ok (token_principal token scopes) else rest

  unfoldable pub decode_token : Oidc → Text → Outcome Principal
  unfolding extract_scopes
  decode_token o token = elim o.decode [
    | none ↦ raise runtime_error
    | some decode ↦ elim (decode token) [
      | none ↦ raise (security (authentication (codes "invalid or expired token")))
      | some claims ↦ ok (record {
        subject = claim_text (codes "sub") claims;
        scopes = extract_scopes o.scope_claims claims;
        token_id = claim_text (codes "jti") claims;
      })
    ]
  ]

  unfoldable pub authenticate : Authenticator → Option Text → Outcome Principal
  unfolding parse_bearer
  authenticate null header = ok anonymous_principal
  authenticate (static tokens) authorization =
      parse_bearer authorization >>= λ supplied. match_token supplied tokens
  authenticate (oidc o) header = parse_bearer header >>= λ token. decode_token o token
