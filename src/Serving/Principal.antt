-- ===== src/Serving/Principal.antt =====
-- The identity behind a request: src/fl_op/serving/security/principal.py.
use fl_op.Base.{Bool, ◌||◌, List, [], ◌∷◌, Text, text_eq, codes, contains}

abbrev pub scope_wildcard : Text
scope_wildcard = codes "*"

abbrev pub anonymous_subject : Text
anonymous_subject = codes "anonymous"

-- `claims` is kept for the caller only, and nothing in the security layer reads it.
pub record Principal : Type 0 where
  pub subject : Text
  pub scopes : List Text
  pub token_id : Text

unfoldable pub has_scope : Principal → Text → Bool
has_scope p scope = contains scope_wildcard p.scopes || contains scope p.scopes

unfoldable pub anonymous_principal : Principal
anonymous_principal = record {
  subject = anonymous_subject;
  scopes = scope_wildcard ∷ [];
  token_id = [];
}
