-- ===== src/Serving/Audit.antt =====
-- The audit trail: src/fl_op/serving/security/audit.py.
use fl_op.Base.{ℕ, Option, none, some, Bool, List, [], ◌∷◌, ◌++◌, Text, if◌then◌else◌}
use fl_op.Serving.Errors.{SecurityError}
use fl_op.Serving.Principal.{Principal}

pub data Decision : Type 0 where
  allow deny : Decision

-- One line of the trail, without its time stamp.
pub record AuditRecord : Type 0 where
  pub method : Text
  pub path : Text
  pub client : Text
  pub subject : Text
  pub token_id : Text
  pub decision : Decision
  pub status : ℕ
  -- the error whose detail is the reason, if the request is refused
  pub reason : Option SecurityError

-- What went to the logger, and what was appended to the file, if one is configured.
pub record AuditLogger : Type 0 where
  pub enabled : Bool
  pub has_file : Bool
  pub logged : List AuditRecord
  pub appended : List AuditRecord

abbrev pub subject_of : Option Principal → Text
subject_of none = []
subject_of (some p) = p.subject

abbrev pub token_id_of : Option Principal → Text
token_id_of none = []
token_id_of (some p) = p.token_id

-- `record`
unfoldable pub record_decision : AuditRecord → AuditLogger → AuditLogger
record_decision r a =
    if a.enabled
    then record a {
      logged = a.logged ++ r ∷ [];
      appended = if a.has_file then a.appended ++ r ∷ [] else a.appended;
    }
    else a
