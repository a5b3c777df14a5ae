-- ===== src/Database.antt =====
-- The rows that the document pipeline reads and writes (app/models/document.py, audit.py,
-- project.py), and the SQLAlchemy session over them. A pipeline call works on one document, so the
-- tables are seen from there: its own row, its project, its pages, and the audit log. Identifiers
-- and times are numbers.
mod Statuses
pub use Statuses.{
  Status, quarantined, validating, scanning, rejected_type, rejected_malware,
  rejected_content_policy, scan_failed, clean_pending_promotion, promoting, promotion_failed, clean,
  parsing, parse_failed, completed, legacy_unverified,
}
unfoldable pub use Statuses.{Status-discrete}
use rfp.Prelude.{Bool, List, Option, String, Text, [], some, ℕ, ◌++◌, ◌∷◌}
use rfp.Prelude.Dict.{Dict}

pub record Document : Type 0 where
  pub id : ℕ
  pub project_id : ℕ
  pub created_by_id : ℕ
  pub display_filename : String
  pub file_path : String
  pub file_type : String
  pub doc_role : String
  pub processing_status : String
  pub approval_status : String
  pub content : Option String
  pub ingestion_status : Status
  pub detected_content_type : Option String
  pub sha256_digest : Option String
  pub file_size_bytes : Option ℕ
  pub quarantined_at : Option ℕ
  pub scan_status : Option String
  pub scan_engine_version : Option String
  pub scan_signature_version : Option String
  pub scan_started_at : Option ℕ
  pub scan_completed_at : Option ℕ
  pub scan_attempt_count : ℕ
  pub scan_digest_snapshot : Option String
  pub content_policy_status : Option String
  pub content_policy_version : Option String
  pub rejection_reason_code : Option String
  pub operator_failure_summary : Option String
  pub promotion_started_at : Option ℕ
  pub promotion_completed_at : Option ℕ
  pub promotion_attempt_count : ℕ
  pub clean_storage_identifier : Option String
  pub cleanup_pending : Bool
  pub parser_version : Option String
  pub parser_completed_at : Option ℕ
  pub parse_started_at : Option ℕ
  pub parse_attempt_count : ℕ
  pub parse_attempt_id : Option String
  pub parse_error_code : Option String

pub record DocumentPage : Type 0 where
  pub id : ℕ
  pub document_id : ℕ
  pub page_number : ℕ
  pub content : Text
  pub unit_kind : Option String
  pub source_locator : Option Text
  pub content_sha256 : Option String

pub record ProposalProject : Type 0 where
  pub id : ℕ
  pub organization_id : ℕ

-- A value in the `details` JSON of an audit event.
pub data Detail : Type 0 where
  text : String → Detail
  optional_text : Option String → Detail
  number : ℕ → Detail
  optional_number : Option ℕ → Detail
  flag : Bool → Detail
  status : Status → Detail

pub record AuditEvent : Type 0 where
  pub organization_id : ℕ
  pub user_id : Option ℕ
  pub action : String
  pub entity_type : String
  pub entity_id : ℕ
  pub details : Dict Detail
  pub request_id : Option String

pub record Tables : Type 0 where
  pub document : Option Document
  pub project : Option ProposalProject
  pub pages : List DocumentPage
  pub audit : List AuditEvent

-- `working` is what the session reads: the committed rows with its pending changes. `queue` is the
-- Redis queue, which no rollback touches.
pub data Job : Type 0 where
  scan_job promotion_job parse_job extraction_job : ℕ → Job

pub record Db : Type 0 where
  pub committed : Tables
  pub working : Tables
  pub queue : List Job
  pub request_id : Option String

abbrev pub commit : Db → Db
commit db = record db { committed = db.working }

abbrev pub rollback : Db → Db
rollback db = record db { working = db.committed }

-- The attributes that were assigned on the document object become pending changes of its row.
abbrev pub save : Document → Db → Db
save doc db = record db { working = record db.working { document = some doc } }

-- `db.add` of an audit event; the log grows at its front.
abbrev pub add_event : AuditEvent → Db → Db
add_event e db = record db { working = record db.working { audit = e ∷ db.working.audit } }

abbrev pub enqueue : Job → Db → Db
enqueue j db = record db { queue = db.queue ++ j ∷ [] }

pub data Error : Type 0 where
  ingestion_state_error : Error
  promotion_error : String → Error
  parser_client_error : String → String → Error
  http_error : ℕ → Error
  extraction_service_error : String → Error
  candidate_review_error : String → Error
  reviewer_authorization_error : ℕ → String → Error
  integrity_error : Error
  unexpected : Error

-- How a call ends: it returns a value or raises.
pub data Outcome {ℓ} (A : Type ℓ) : Type ℓ where
  returned : A → Outcome A
  raised : Error → Outcome A

-- A call on the session. What was written before an exception stays pending.
abbrev pub Exec {ℓ} : Type ℓ → Type ℓ
Exec A = Db → Outcome A × Db

abbrev pub continue {ℓ κ} :
    {A : Type ℓ} {B : Type κ} → (A → Exec B) → Outcome A × Db → Outcome B × Db
continue f (returned a, db) = f a db
continue f (raised e, db) = (raised e, db)

infixl 5 ◌>>=◌ ◌>>◌
abbrev pub ◌>>=◌ {ℓ κ} : {A : Type ℓ} {B : Type κ} → Exec A → (A → Exec B) → Exec B
◌>>=◌ m f db = continue f (m db)

abbrev pub ◌>>◌ {ℓ κ} : {A : Type ℓ} {B : Type κ} → Exec A → Exec B → Exec B
m >> k = m >>= λ _. k
