-- ===== src/Serving/Tests.antt =====
-- The serving guard on concrete requests: src/fl_op/serving/security.
use fl_op.Base.{
  ℕ, ◌+◌, ◌-◌, ◌*◌, min, ◌≡◌, ◌≢◌, refl, ◌↔◌, ◌⊎◌, Option, none, some, true, false, List, [], ◌∷◌,
  ◌++◌, Text, text_eq, codes, arith, is_some, contains, not, ◌&&◌, map,
}
use fl_op.Base.Dict.{Dict, get, put}
use fl_op.Base.Strip.{strip, lower, partition, split_on, is_empty}
use fl_op.Serving.Errors.{authorization, status_code, headers, type_error}
use fl_op.Serving.Principal.{Principal, has_scope}
use fl_op.Serving.RateLimit.{
  Limiter, check, enabled, verdict, next_entry, current_window, retry_seconds,
}
use fl_op.Serving.RateLimit.Budget.{admitted, requests_of, budget_exact}
use fl_op.Serving.RateLimit.Retry.{retry_early}
use fl_op.Serving.Authenticators.{
  Crypto, Authenticator, static, match_token, parse_bearer, authenticate, is_ascii, compare_digest,
}
use fl_op.Serving.Authenticators.Tokens.{match_token-get, looked_up}
use fl_op.Serving.Gateway.{SecurityGateway, Request, admit, uncaught, requires}
use fl_op.Serving.Gateway.Guard.{
  Cleared, Audited, requires_admits, requires_audits, requires_refusal,
}
use fl_op.Serving.Gateway.Keying.{requires_non_ascii}
use fl_op.Serving.Gateway.Config.{Constants, Jwt, built, build_authenticator, configured_tokens}
use fl_op.Serving.Gateway.Config.Open.{AsksOpen, build_authenticator_open}
use fl_op.Serving.Gateway.Config.Tokens.{IsClean, configured_tokens-IsClean}

abbrev ann : Text
ann = codes "ann"

abbrev bob : Text
bob = codes "bob"

-- Two requests to ten seconds of four ticks each, and one of them spent.
abbrev half_spent : Limiter
half_spent = record { max_requests = 2; window = 42; ticks = 4; windows = (ann, (100, 1)) ∷ [] }

abbrev spent : Limiter
spent = record { max_requests = 2; window = 42; ticks = 4; windows = (ann, (100, 2)) ∷ [] }

abbrev traffic : List (Text × ℕ)
traffic = (bob, 101) ∷ (ann, 102) ∷ (ann, 103) ∷ (bob, 104) ∷ (ann, 104) ∷ []

budget_exact_example : admitted ann traffic half_spent ≡ min (requests_of ann traffic) (2 - 1)
unfolding get enabled
budget_exact_example = budget_exact ann traffic 100 1 half_spent refl refl (omega arith)

admitted-traffic : admitted ann traffic half_spent ≡ 1
unfolding admitted check enabled verdict next_entry current_window retry_seconds get put
admitted-traffic = refl

retry_early_example : is_some (check ann (101 + 10 * 4) (check ann 101 spent).1).0 ≡ true
unfolding check enabled verdict next_entry current_window retry_seconds get put
retry_early_example =
    retry_early ann 101 10 100 3 spent (omega arith) refl refl (omega arith) (omega arith)

abbrev plain : Crypto
plain = record { token_fingerprint = λ t. t }

abbrev tokens : Dict Text (List Text)
tokens = (codes "s3cret", codes "plans:read" ∷ []) ∷ (codes "old", codes "*" ∷ []) ∷ []

match_token-get_example :
    match_token plain (codes "old") tokens
    ≡ looked_up plain (codes "old") (get (codes "old") tokens)
unfolding is_ascii
match_token-get_example = match_token-get plain (codes "old") tokens refl (refl, (refl, tt))

abbrev gateway : SecurityGateway
gateway = record {
  authenticator = static tokens;
  rate_limiter = half_spent;
  audit = record { enabled = true; has_file = false; logged = []; appended = [] };
}

abbrev request_of : Text → Request
request_of token = record {
  client = none;
  method = codes "GET";
  path = codes "/plans";
  header = some (codes "Bearer " ++ token);
  now = 101;
}

abbrev reader : Principal
reader = record {
  subject = codes "token:s3cret";
  scopes = codes "plans:read" ∷ [];
  token_id = codes "s3cret";
}

requires_admits_example :
    ((requires plain (codes "plans:read") (request_of (codes "s3cret")) gateway).0 ≡ admit reader)
    ↔ Cleared plain (codes "plans:read") (request_of (codes "s3cret")) gateway reader
requires_admits_example =
    requires_admits plain (codes "plans:read") (request_of (codes "s3cret")) gateway reader

requires_audits_example :
    Audited plain
      (codes "plans:read")
      (request_of (codes "s3cret"))
      gateway
      (requires plain (codes "plans:read") (request_of (codes "s3cret")) gateway)
requires_audits_example =
    requires_audits plain (codes "plans:read") (request_of (codes "s3cret")) gateway refl

requires_refusal_example :
    (403 ≡ status_code (authorization (codes "admin")))
    × ([] ≡ headers (authorization (codes "admin")))
    × ((◌≡◌ {A = ℕ} 403 401) ⊎ (◌≡◌ {A = ℕ} 403 403) ⊎ (◌≡◌ {A = ℕ} 403 429))
    × (◌≢◌ {A = ℕ} 403 429
        → (requires plain (codes "admin") (request_of (codes "s3cret")) gateway).1.rate_limiter
          ≡ half_spent)
unfolding requires authenticate match_token compare_digest status_code headers has_scope lower
    partition strip contains
requires_refusal_example =
    requires_refusal plain (codes "admin") (request_of (codes "s3cret")) gateway 403
      (authorization (codes "admin")) [] refl

-- A token with an e acute, as a header in Latin-1 can carry it.
requires_non_ascii_example :
    requires plain (codes "plans:read") (request_of (233 ∷ [])) gateway
    ≡ (uncaught type_error, gateway)
unfolding parse_bearer is_ascii lower partition strip
requires_non_ascii_example =
    requires_non_ascii plain (codes "plans:read") (request_of (233 ∷ [])) gateway (codes "s3cret")
      (233 ∷ []) (codes "plans:read" ∷ []) ((codes "old", codes "*" ∷ []) ∷ []) refl refl refl

abbrev no_jwt : Jwt
no_jwt = record { decode = λ _ _ _ _ _. none }

abbrev settings : Constants
settings = record {
  auth_token = codes " a ";
  auth_tokens = codes "b,a,,c";
  auth_mode = [];
  oidc_issuer = [];
  oidc_audience = [];
  oidc_jwks_url = [];
  oidc_hs256_secret = [];
  oidc_algorithms = [];
  oidc_scope_claims = [];
}

build_authenticator_open_example :
    (build_authenticator no_jwt settings none ≡ built Authenticator.null) ↔ (
      (◌≡◌ {A = Option Text} none (some []))
      ⊎ ((◌≡◌ {A = Option Text} none none) × AsksOpen settings))
build_authenticator_open_example = build_authenticator_open no_jwt settings none

configured_tokens-IsClean_example :
    IsClean (configured_tokens settings)
    × ((t : Text)
        → contains t (configured_tokens settings) ≡ (
            not (is_empty t)
            && contains t (map strip (codes " a " ∷ split_on 44 (codes "b,a,,c")))))
configured_tokens-IsClean_example = configured_tokens-IsClean settings

configured_abc : configured_tokens settings ≡ codes "a" ∷ codes "b" ∷ codes "c" ∷ []
unfolding configured_tokens strip split_on contains
configured_abc = refl
