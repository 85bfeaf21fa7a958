-- ===== src/Serving/Errors.antt =====
-- Refusals of the security layer: src/fl_op/serving/security/errors.py.
use fl_op.Base.{ℕ, List, [], ◌∷◌, Text, codes}

-- The exceptions that an authenticator, the scope check and the limiter raise, with what their
-- messages are made of.
pub data SecurityError : Type 0 where
  authentication : Text → SecurityError
  authorization : Text → SecurityError
  -- the budget, the window, and `retry_after_s`
  rate_limit : ℕ → ℕ → ℕ → SecurityError

-- The response headers that an exception carries.
pub data ResponseHeader : Type 0 where
  www_authenticate : Text → ResponseHeader
  retry_after : ℕ → ResponseHeader

unfoldable pub status_code : SecurityError → ℕ
status_code (authentication _) = 401
status_code (authorization _) = 403
status_code (rate_limit _ _ _) = 429

unfoldable pub headers : SecurityError → List ResponseHeader
headers (authentication _) = www_authenticate (codes "Bearer") ∷ []
headers (authorization _) = []
headers (rate_limit _ _ retry) = retry_after retry ∷ []

-- What a call into the security layer raises: a `SecurityError`, which the gateway translates, or
-- an exception of another class, which it does not catch.
pub data Raised : Type 0 where
  security : SecurityError → Raised
  type_error : Raised
  runtime_error : Raised

pub data Outcome {μ} (Result : Type μ) : Type μ where
  raise : Raised → Outcome Result
  ok : Result → Outcome Result

-- What follows a call that may raise.
abbrev pub ◌>>=◌ {μ ν} : {S : Type μ} {T : Type ν} → Outcome S → (S → Outcome T) → Outcome T
raise e >>= next = raise e
ok a >>= next = next a

infixl 5 ◌>>=◌
