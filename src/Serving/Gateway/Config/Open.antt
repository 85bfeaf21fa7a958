-- ===== src/Serving/Gateway/Config/Open.antt =====
-- When the API is left open: src/fl_op/serving/security/gateway.py.
use fl_op.Base.{
  ◌≡◌, refl, ◌↔◌, ◌⊎◌, inr, Option, none, some, List, [], ◌∷◌, Text, text_eq, codes, arith,
}
use fl_op.Base.Dict.{Dict}
use fl_op.Base.Strip.{strip, lower}
use fl_op.Serving.Authenticators.{null, static_tokens}
use fl_op.Serving.Gateway.Config.{
  Constants, Jwt, built, configured_tokens, effective_mode, by_mode, build_authenticator,
  from_option, unscoped,
}

-- The settings ask for the open mode: by name, or by naming no mode, no issuer and no token.
abbrev pub AsksOpen : Constants → Type 0
AsksOpen c =
    (lower (strip c.auth_mode) ≡ codes "none")
    ⊎ ((lower (strip c.auth_mode) ≡ []) × (c.oidc_issuer ≡ []) × (configured_tokens c ≡ []))

effective_mode_none : (c : Constants) → (effective_mode c ≡ codes "none") ↔ AsksOpen c
unfolding effective_mode
effective_mode_none c = (λ h. ground arith, λ h. ground arith)

static_tokens-ne-null : (d : Dict Text (List Text)) → from_option (static_tokens d) ≡ built null → ⊥
unfolding static_tokens
static_tokens-ne-null [] h = cc
static_tokens-ne-null (t ∷ d) h = cc

by_mode_null :
    (jwt : Jwt) (c : Constants) (mode : Text)
    → (by_mode jwt c mode ≡ built null) ↔ (mode ≡ codes "none")
unfolding by_mode
by_mode_null jwt c mode =
    (λ h. ground (arith, static_tokens-ne-null (unscoped [] (configured_tokens c))), λ h. rw h)

-- The gateway is open exactly if the override is the empty text, or there is no override and the
-- settings ask for it.
pub build_authenticator_open :
    (jwt : Jwt) (c : Constants) (token : Option Text)
    → (build_authenticator jwt c token ≡ built null)
      ↔ ((token ≡ some []) ⊎ ((token ≡ none) × AsksOpen c))
unfolding build_authenticator
build_authenticator_open jwt c none = (
  λ h. inr (refl, (effective_mode_none c).0 ((by_mode_null jwt c (effective_mode c)).0 h)),
  λ h. ground (arith, by_mode_null jwt c (effective_mode c), effective_mode_none c),
)
build_authenticator_open jwt c (some token) =
    (λ h. ground (arith, static_tokens-ne-null ((token, []) ∷ [])), λ h. ground arith)
