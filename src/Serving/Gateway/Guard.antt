-- ===== src/Serving/Gateway/Guard.antt =====
-- What a guarded route can rely on: src/fl_op/serving/security/gateway.py.
use fl_op.Base.{
  ℕ, Option, none, some, true, List, [], ◌∷◌, ◌++◌, Text, text_eq, ◌≡◌, ◌≢◌, ◌↔◌, ◌⊎◌, refl, arith,
  Bool-cases, inl, inr,
}
use fl_op.Serving.Errors.{
  SecurityError, authorization, rate_limit, status_code, headers, ResponseHeader, security,
  type_error, runtime_error, Outcome, ok, raise,
}
use fl_op.Serving.Principal.{Principal, has_scope}
use fl_op.Serving.Authenticators.{Crypto, authenticate}
use fl_op.Serving.Audit.{AuditLogger, AuditRecord, allow, deny, record_decision}
use fl_op.Serving.RateLimit.{Limiter, check}
use fl_op.Serving.Gateway.{
  SecurityGateway, Request, Response, admit, refuse, uncaught, requires, authorize, on_identity,
  after_check, rate_limit_key, client_of, deny_request, admit_request, audit_record,
}

-- The three checks that stand before a route.
pub record Cleared (crypto : Crypto) (scope : Text) (r : Request) (g : SecurityGateway)
    (p : Principal) : Type 0 where
  pub identified : authenticate crypto g.authenticator r.header ≡ ok p
  pub permitted : has_scope p scope ≡ true
  pub within_budget : (check (rate_limit_key p (client_of r)) r.now g.rate_limiter).0 ≡ none

module _ (crypto : Crypto) (scope : Text) (r : Request) (g : SecurityGateway) where
  -- A request reaches its route as `p` exactly if it authenticates as `p`, `p` holds the route's
  -- scope or the wildcard, and the limiter lets the request through.
  pub requires_admits :
      (p : Principal) → ((requires crypto scope r g).0 ≡ admit p) ↔ Cleared crypto scope r g p
  unfolding requires
  requires_admits p = (λ h. ground arith, λ c. ground arith)

  abbrev Recorded : AuditLogger → AuditRecord → Type 0
  Recorded a rec =
      (a.logged ≡ g.audit.logged ++ rec ∷ [])
      × (rec.client ≡ client_of r)
      × (rec.method ≡ r.method)
      × (rec.path ≡ r.path)

  -- What an answer leaves in the trail.
  abbrev pub Audited : Response × SecurityGateway → Type 0
  Audited (admit p, g') =
      (rec : AuditRecord) × Recorded g'.audit rec
      × (rec.decision ≡ allow)
      × (rec.status ≡ 200)
      × (rec.reason ≡ none)
      × (rec.subject ≡ p.subject)
      × (rec.token_id ≡ p.token_id)
  Audited (refuse status e _, g') =
      (rec : AuditRecord) × Recorded g'.audit rec
      × (rec.decision ≡ deny)
      × (rec.status ≡ status)
      × (rec.reason ≡ some e)
  Audited (uncaught _, g') = g' ≡ g

  deny-Audited :
      (p : Option Principal) (e : SecurityError) (l : Limiter)
      → g.audit.enabled ≡ true
      → Audited (deny_request r p e (record g { rate_limiter = l }))
  unfolding deny_request record_decision
  deny-Audited p e l on = (
    audit_record r p deny (status_code e) (some e),
    (ground arith, refl, refl, refl),
    refl,
    refl,
    refl,
  )

  admit-Audited :
      (p : Principal) (l : Limiter)
      → g.audit.enabled ≡ true
      → Audited (admit_request r p (record g { rate_limiter = l }))
  unfolding admit_request record_decision
  admit-Audited p l on = (
    audit_record r (some p) allow 200 none,
    (ground arith, refl, refl, refl),
    refl,
    refl,
    refl,
    refl,
    refl,
  )

  after_check-Audited :
      (p : Principal) (c : Option ℕ × Limiter)
      → g.audit.enabled ≡ true
      → Audited (after_check r p c g)
  unfolding after_check
  after_check-Audited p (none, l) on = admit-Audited p l on
  after_check-Audited p (some retry, l) on =
      deny-Audited (some p) (rate_limit l.max_requests l.window retry) l on

  authorize-Audited : (p : Principal) → g.audit.enabled ≡ true → Audited (authorize scope r p g)
  unfolding authorize
  authorize-Audited p on = elim (Bool-cases (has_scope p scope)) [
    | inl held ↦
        rw held
          (after_check-Audited p (check (rate_limit_key p (client_of r)) r.now g.rate_limiter) on)
    | inr missing ↦ rw missing (deny-Audited (some p) (authorization scope) g.rate_limiter on)
  ]

  on_identity-Audited :
      (o : Outcome Principal) → g.audit.enabled ≡ true → Audited (on_identity scope r o g)
  on_identity-Audited (ok p) on = authorize-Audited p on
  on_identity-Audited (raise (security e)) on = deny-Audited none e g.rate_limiter on
  on_identity-Audited (raise type_error) on = refl
  on_identity-Audited (raise runtime_error) on = refl

  -- With auditing on, a request that is admitted or refused adds exactly one record to the trail,
  -- with the client, the method and the path, and the answer that was given; an exception that is
  -- no SecurityError leaves the whole gateway as it was.
  pub requires_audits : g.audit.enabled ≡ true → Audited (requires crypto scope r g)
  unfolding requires
  requires_audits on = on_identity-Audited (authenticate crypto g.authenticator r.header) on

  -- A refusal is a 401, a 403 or a 429, and the first two leave the request budgets alone.
  pub requires_refusal :
      (status : ℕ) (e : SecurityError) (h : List ResponseHeader)
      → (requires crypto scope r g).0 ≡ refuse status e h
      → (status ≡ status_code e)
        × (h ≡ headers e)
        × ((status ≡ 401) ⊎ (status ≡ 403) ⊎ (status ≡ 429))
        × (status ≢ 429 → (requires crypto scope r g).1.rate_limiter ≡ g.rate_limiter)
  unfolding requires status_code
  requires_refusal status e h refused =
      (ground arith, ground arith, ground arith, λ other. ground arith)
