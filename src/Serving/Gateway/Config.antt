-- ===== src/Serving/Gateway/Config.antt =====
-- The authenticator that the settings select: src/fl_op/serving/security/gateway.py.
pub mod Open
pub mod Tokens
use fl_op.Base.{
  ℕ, Option, none, some, Bool, true, false, ◌&&◌, ◌||◌, not, List, [], ◌∷◌, ◌++◌, map, Text,
  text_eq, codes, ◌==◌, contains, if◌then◌else◌,
}
use fl_op.Base.Dict.{Dict, put}
use fl_op.Base.Strip.{strip, lower, split_on, is_empty}
use fl_op.Serving.Authenticators.{Authenticator, null, static, oidc, Oidc, Claim, static_tokens}

-- The `SERVE_*` constants that are read here.
pub record Constants : Type 0 where
  pub auth_token : Text
  pub auth_tokens : Text
  pub auth_mode : Text
  pub oidc_issuer : Text
  pub oidc_audience : Text
  pub oidc_jwks_url : Text
  pub oidc_hs256_secret : Text
  pub oidc_algorithms : Text
  pub oidc_scope_claims : Text

-- What PyJWT does under these settings: issuer, audience, key URL, secret and algorithms.
pub record Jwt : Type 0 where
  pub decode : Text → Text → Text → Text → List Text → Option (Text → Option (Dict Text Claim))

pub data Build : Type 0 where
  built : Authenticator → Build
  value_error : Build

-- One round of the loop of `_configured_tokens`.
abbrev pub add_token : List Text → Text → List Text
add_token tokens t =
    if not (is_empty t) && not (contains t tokens) then tokens ++ t ∷ [] else tokens

-- The loop, over the tokens found so far.
unfoldable pub collect_tokens : List Text → List Text → List Text
collect_tokens tokens [] = tokens
collect_tokens tokens (t ∷ raw) = collect_tokens (add_token tokens t) raw

unfoldable pub configured_tokens : Constants → List Text
unfolding collect_tokens
configured_tokens c = collect_tokens [] (map strip (c.auth_token ∷ split_on 44 c.auth_tokens))

unfoldable pub drop_empty : List Text → List Text
drop_empty [] = []
drop_empty (t ∷ ts) = if is_empty t then drop_empty ts else t ∷ drop_empty ts

unfoldable pub split_csv : Text → List Text → List Text
unfolding drop_empty
split_csv value default =
    let parts = drop_empty (map strip (split_on 44 value)) in
    if is_empty parts then default else parts

abbrev pub from_option : Option Authenticator → Build
from_option none = value_error
from_option (some a) = built a

-- `{token: frozenset() for token in tokens}`, over the entries so far
unfoldable pub unscoped : Dict Text (List Text) → List Text → Dict Text (List Text)
unscoped d [] = d
unscoped d (t ∷ ts) = unscoped (put t [] d) ts

-- `OidcJwtAuthenticator(...)`, with the checks of its `__init__`.
unfoldable pub oidc_authenticator : Jwt → Constants → Build
unfolding split_csv
oidc_authenticator jwt c =
    if is_empty c.oidc_issuer || is_empty c.oidc_jwks_url && is_empty c.oidc_hs256_secret
    then value_error
    else built (
        oidc (record {
          scope_claims =
              split_csv c.oidc_scope_claims (codes "scope" ∷ codes "scp" ∷ codes "roles" ∷ []);
          decode =
              jwt.decode c.oidc_issuer c.oidc_audience c.oidc_jwks_url c.oidc_hs256_secret
                (split_csv c.oidc_algorithms (codes "RS256" ∷ []));
        }))

-- The mode as it is set, or the one that the other settings imply.
unfoldable pub effective_mode : Constants → Text
effective_mode c =
    let mode = lower (strip c.auth_mode) in
    if is_empty mode
    then (if not (is_empty c.oidc_issuer)
        then codes "oidc"
        else if not (is_empty (configured_tokens c))
        then codes "static"
        else codes "none")
    else mode

unfoldable pub by_mode : Jwt → Constants → Text → Build
unfolding oidc_authenticator unscoped
by_mode jwt c mode =
    if mode == codes "none"
    then built null
    else if mode == codes "static"
    then from_option (static_tokens (unscoped [] (configured_tokens c)))
    else if mode == codes "oidc"
    then oidc_authenticator jwt c
    else value_error

-- `_build_authenticator`: an override of the empty text forces the open mode.
unfoldable pub build_authenticator : Jwt → Constants → Option Text → Build
unfolding by_mode effective_mode
build_authenticator jwt c (some token) =
    if is_empty token then built null else from_option (static_tokens ((token, []) ∷ []))
build_authenticator jwt c none = by_mode jwt c (effective_mode c)
