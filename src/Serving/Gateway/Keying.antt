-- ===== src/Serving/Gateway/Keying.antt =====
-- Whose budget a request counts against: src/fl_op/serving/security/gateway.py.
use fl_op.Base.{◌≡◌, true, false, ◌||◌, Text, text_eq, ◌==◌, arith, List, ◌∷◌}
use fl_op.Base.Dict.{Dict}
use fl_op.Base.Strip.{is_empty}
use fl_op.Serving.Errors.{type_error, ok}
use fl_op.Serving.Principal.{Principal, anonymous_subject}
use fl_op.Serving.Authenticators.{Crypto, parse_bearer, is_ascii, authenticate, static}
use fl_op.Serving.Authenticators.Tokens.{match_token_non_ascii}
use fl_op.Serving.Gateway.{requires, uncaught, SecurityGateway, Request}

-- Nobody is known by name behind the request.
abbrev pub IsAnonymous : Principal → Type 0
IsAnonymous p = (p.subject == anonymous_subject || is_empty p.subject) ≡ true

-- With static tokens configured, a bearer token that is not ASCII ends in a TypeError that the
-- guard does not catch: no refusal is answered, nothing is audited and nothing is counted.
pub requires_non_ascii :
    (crypto : Crypto) (scope : Text) (r : Request) (g : SecurityGateway) (token supplied : Text)
    (scopes : List Text) (tokens : Dict Text (List Text))
    → g.authenticator ≡ static ((token, scopes) ∷ tokens)
    → parse_bearer r.header ≡ ok supplied
    → is_ascii supplied ≡ false
    → requires crypto scope r g ≡ (uncaught type_error, g)
unfolding requires authenticate
requires_non_ascii crypto scope r g token supplied scopes tokens static_mode parsed non_ascii =
    ground (arith, match_token_non_ascii crypto supplied token scopes tokens non_ascii)
