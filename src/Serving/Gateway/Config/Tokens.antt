-- ===== src/Serving/Gateway/Config/Tokens.antt =====
-- The tokens that the settings name: src/fl_op/serving/security/gateway.py.
use fl_op.Base.{
  ◌≡◌, ◌≢◌, ◌&&◌, ◌||◌, not, List, [], ◌∷◌, ◌++◌, map, Text, text_eq, contains, contains-append,
  Distinct, Distinct-snoc, All, All-append, arith, Bool-cases, inl, inr,
}
use fl_op.Base.Strip.{strip, split_on, is_empty}
use fl_op.Serving.Gateway.Config.{Constants, add_token, collect_tokens, configured_tokens}

-- What the token list is worth.
abbrev pub IsClean : List Text → Type 0
IsClean tokens = Distinct tokens × All (λ t. t ≢ []) tokens

add-IsClean : (tokens : List Text) (t : Text) → IsClean tokens → IsClean (add_token tokens t)
add-IsClean tokens [] h = h
add-IsClean tokens (c ∷ t) h = elim (Bool-cases (contains (c ∷ t) tokens)) [
  | inl old ↦ rw old h
  | inr new ↦ rw new (
    Distinct-snoc tokens (c ∷ t) new h.0,
    All-append (λ (x : Text). x ≢ []) tokens ((c ∷ t) ∷ []) h.1 ((λ e. cc), tt),
  )
]

collect_tokens-IsClean :
    (tokens raw : List Text) → IsClean tokens → IsClean (collect_tokens tokens raw)
unfolding collect_tokens
collect_tokens-IsClean tokens [] h = h
collect_tokens-IsClean tokens (t ∷ raw) h =
    collect_tokens-IsClean (add_token tokens t) raw (add-IsClean tokens t h)

contains-collect_tokens :
    (t : Text) (tokens raw : List Text)
    → contains t (collect_tokens tokens raw)
      ≡ (contains t tokens || not (is_empty t) && contains t raw)
unfolding collect_tokens contains
contains-collect_tokens t tokens [] = ground arith
contains-collect_tokens t tokens (r ∷ raw) = ground (
  arith,
  contains-collect_tokens t (tokens ++ r ∷ []) raw,
  contains-collect_tokens t tokens raw,
  contains-append t tokens (r ∷ []),
  text_eq.agrees_iff r t,
)

-- The configured tokens are distinct and not empty, and they are the stripped texts of the two
-- settings, the comma-separated one split, that are not empty.
pub configured_tokens-IsClean :
    (c : Constants)
    → IsClean (configured_tokens c)
      × ((t : Text)
          → contains t (configured_tokens c) ≡ (
              not (is_empty t)
              && contains t (map strip (c.auth_token ∷ split_on 44 c.auth_tokens))))
unfolding configured_tokens contains
configured_tokens-IsClean c = (
  collect_tokens-IsClean [] (map strip (c.auth_token ∷ split_on 44 c.auth_tokens)) (tt, tt),
  λ t. contains-collect_tokens t [] (map strip (c.auth_token ∷ split_on 44 c.auth_tokens)),
)
