-- ===== src/Serving/Gateway.antt =====
-- The guard of each protected route: src/fl_op/serving/security/gateway.py.
pub mod Guard
pub mod Keying
pub mod Config
use fl_op.Base.{
  ℕ, Option, none, some, Bool, ◌||◌, List, [], ◌∷◌, ◌++◌, Text, text_eq, codes, ◌==◌, or_else,
  if◌then◌else◌,
}
use fl_op.Base.Strip.{is_empty}
use fl_op.Serving.Errors.{
  SecurityError, authorization, rate_limit, status_code, headers, ResponseHeader, Raised, security,
  Outcome, ok, raise,
}
use fl_op.Serving.Principal.{Principal, has_scope, anonymous_subject}
use fl_op.Serving.Authenticators.{Crypto, Authenticator, authenticate}
use fl_op.Serving.Audit.{
  AuditLogger, AuditRecord, Decision, allow, deny, record_decision, subject_of, token_id_of,
}
use fl_op.Serving.RateLimit.{Limiter, check}

pub record SecurityGateway : Type 0 where
  pub authenticator : Authenticator
  pub rate_limiter : Limiter
  pub audit : AuditLogger

-- The parts of a request that the guard reads, and the limiter's clock when it comes.
pub record Request : Type 0 where
  pub client : Option Text
  pub method : Text
  pub path : Text
  pub header : Option Text
  pub now : ℕ

-- What the guard hands to the route, or answers instead of it: an HTTPException with its status,
-- the error whose detail it shows, and its headers; or an exception that it does not catch.
pub data Response : Type 0 where
  admit : Principal → Response
  refuse : ℕ → SecurityError → List ResponseHeader → Response
  uncaught : Raised → Response

unfoldable pub rate_limit_key : Principal → Text → Text
rate_limit_key p client =
    if p.subject == anonymous_subject || is_empty p.subject
    then codes "ip:" ++ client
    else codes "sub:" ++ p.subject

abbrev pub client_of : Request → Text
client_of r = or_else r.client (codes "-")

pub audit_record : Request → Option Principal → Decision → ℕ → Option SecurityError → AuditRecord
audit_record r p decision status reason = record {
  method = r.method;
  path = r.path;
  client = client_of r;
  subject = subject_of p;
  token_id = token_id_of p;
  decision = decision;
  status = status;
  reason = reason;
}

-- The `except` clause: the refusal is audited, then answered.
pub deny_request :
    Request → Option Principal → SecurityError → SecurityGateway → Response × SecurityGateway
unfolding audit_record
deny_request r p e g = (
  refuse (status_code e) e (headers e),
  record g { audit = record_decision (audit_record r p deny (status_code e) (some e)) g.audit },
)

pub admit_request : Request → Principal → SecurityGateway → Response × SecurityGateway
unfolding audit_record
admit_request r p g =
    (admit p, record g { audit = record_decision (audit_record r (some p) allow 200 none) g.audit })

-- After `rate_limiter.check`.
pub after_check :
    Request → Principal → Option ℕ × Limiter → SecurityGateway → Response × SecurityGateway
unfolding deny_request admit_request
after_check r p (none, l) g = admit_request r p (record g { rate_limiter = l })
after_check r p (some retry, l) g =
    deny_request r (some p) (rate_limit l.max_requests l.window retry)
      (record g { rate_limiter = l })

-- With the principal that the authenticator made out.
pub authorize : Text → Request → Principal → SecurityGateway → Response × SecurityGateway
unfolding after_check
authorize scope r p g =
    if has_scope p scope
    then after_check r p (check (rate_limit_key p (client_of r)) r.now g.rate_limiter) g
    else deny_request r (some p) (authorization scope) g

abbrev pub on_identity :
    Text → Request → Outcome Principal → SecurityGateway → Response × SecurityGateway
on_identity scope r (ok p) g = authorize scope r p g
on_identity scope r (raise (security e)) g = deny_request r none e g
on_identity scope r (raise e) g = (uncaught e, g)

-- `requires(scope)`: the dependency that guards a route.
unfoldable pub requires : Crypto → Text → Request → SecurityGateway → Response × SecurityGateway
unfolding authorize
requires crypto scope r g = on_identity scope r (authenticate crypto g.authenticator r.header) g
