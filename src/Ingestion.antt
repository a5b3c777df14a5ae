-- ===== src/Ingestion.antt =====
-- app/services/ingestion_state.py: the transition table, and `transition`, the one place that
-- changes a document's ingestion status.
pub mod Names
pub mod Step
pub mod Trail
pub mod Routes
mod Examples
use rfp.Database.{
  AuditEvent, Detail, Document, Exec, Status, Status-discrete, add_event, clean,
  clean_pending_promotion, commit, completed, ingestion_state_error, legacy_unverified,
  parse_failed, parsing, promoting, promotion_failed, quarantined, raised, rejected_content_policy,
  rejected_malware, rejected_type, returned, save, scan_failed, scanning, status, text, validating,
}
use rfp.Prelude.{
  Bool, List, Option, String, [], false, if◌then◌else◌, ite, none, some, str_eq, true, ℕ, ◌∷◌,
}
use rfp.Prelude.Dict.{Dict, insert}

-- ALLOWED_TRANSITIONS
unfoldable pub allowed_transitions : Status → List Status
allowed_transitions quarantined = validating ∷ []
allowed_transitions validating = scanning ∷ rejected_type ∷ []
allowed_transitions scanning =
    clean_pending_promotion ∷ rejected_malware ∷ rejected_content_policy ∷ scan_failed ∷ []
allowed_transitions scan_failed = scanning ∷ []
allowed_transitions rejected_type = []
allowed_transitions rejected_malware = []
allowed_transitions rejected_content_policy = []
allowed_transitions clean_pending_promotion = promoting ∷ []
allowed_transitions promoting = clean ∷ promotion_failed ∷ []
allowed_transitions promotion_failed = promoting ∷ []
allowed_transitions clean = parsing ∷ []
allowed_transitions parsing = completed ∷ parse_failed ∷ []
allowed_transitions parse_failed = parsing ∷ []
allowed_transitions completed = []
allowed_transitions legacy_unverified = validating ∷ []

contains : List Status → Status → Bool
contains [] s = false
contains (x ∷ xs) s = ite (Status-discrete x s) true (contains xs s)

-- `new_status in ALLOWED_TRANSITIONS.get(current)`
unfoldable pub is_allowed : Status → Status → Bool
unfolding allowed_transitions contains Status-discrete
is_allowed current new_status = contains (allowed_transitions current) new_status

-- The keyword arguments of `transition`.
pub record Change : Type 0 where
  pub org_id : ℕ
  pub user_id : Option ℕ
  pub reason_code : Option String
  pub safe_summary : Option String
  pub audit_detail : Dict Detail

abbrev pub plain : ℕ → Option ℕ → Change
plain org_id user_id = record {
  org_id = org_id;
  user_id = user_id;
  reason_code = none;
  safe_summary = none;
  audit_detail = [];
}

add_reason : Option String → Dict Detail → Dict Detail
add_reason none details = details
add_reason (some code) details = insert "reason_code" (text code) details

-- The base keys are written last, over those of `audit_detail`.
unfoldable pub event_details : Status → Status → Change → Dict Detail
unfolding add_reason insert
event_details current new_status change =
    add_reason change.reason_code
      (insert "to" (status new_status) (insert "from" (status current) change.audit_detail))

keep_or : Option String → Option String → Option String
keep_or none old = old
keep_or (some new) old = some new

unfoldable pub moved : Document → Status → Change → Document
unfolding keep_or
moved doc new_status change = record doc {
  ingestion_status = new_status;
  rejection_reason_code = keep_or change.reason_code doc.rejection_reason_code;
  operator_failure_summary = keep_or change.safe_summary doc.operator_failure_summary;
}

unfoldable pub transition_event : Document → Status → Change → Option String → AuditEvent
transition_event doc new_status change request_id = record {
  organization_id = change.org_id;
  user_id = change.user_id;
  action = "document_ingestion_transition";
  entity_type = "Document";
  entity_id = doc.id;
  details = event_details doc.ingestion_status new_status change;
  request_id = request_id;
}

-- The move to a status that is known, for a document object with the attributes of `doc`.
unfoldable pub transition : Document → Status → Change → Exec Document
unfolding moved transition_event
transition doc new_status change db =
    ite (Status-discrete doc.ingestion_status new_status) (returned doc, save doc db)
      (if is_allowed doc.ingestion_status new_status
        then (let doc' = moved doc new_status change in
            (
              returned doc',
              commit
                  (add_event (transition_event doc new_status change db.request_id) (save doc' db)),
            ))
        else (raised ingestion_state_error, save doc db))

unfoldable pub status_name : Status → String
status_name quarantined = "QUARANTINED"
status_name validating = "VALIDATING"
status_name scanning = "SCANNING"
status_name rejected_type = "REJECTED_TYPE"
status_name rejected_malware = "REJECTED_MALWARE"
status_name rejected_content_policy = "REJECTED_CONTENT_POLICY"
status_name scan_failed = "SCAN_FAILED"
status_name clean_pending_promotion = "CLEAN_PENDING_PROMOTION"
status_name promoting = "PROMOTING"
status_name promotion_failed = "PROMOTION_FAILED"
status_name clean = "CLEAN"
status_name parsing = "PARSING"
status_name parse_failed = "PARSE_FAILED"
status_name completed = "COMPLETED"
status_name legacy_unverified = "LEGACY_UNVERIFIED"

-- IngestionStatus.ALL
abbrev all_statuses : List Status
all_statuses =
    quarantined ∷ validating ∷ scanning ∷ rejected_type ∷ rejected_malware ∷ rejected_content_policy
    ∷ scan_failed ∷ clean_pending_promotion ∷ promoting ∷ promotion_failed ∷ clean ∷ parsing
    ∷ parse_failed ∷ completed ∷ legacy_unverified ∷ []

find_named : String → List Status → Option Status
find_named name [] = none
find_named name (s ∷ rest) = if str_eq (status_name s) name then some s else find_named name rest

unfoldable pub status_named : String → Option Status
unfolding find_named status_name
status_named name = find_named name all_statuses

-- `transition` as it is called, with a status text that may be unknown.
unfoldable pub transition_named : Document → String → Change → Exec Document
unfolding transition status_named
transition_named doc new_status change db = elim (status_named new_status) [
  | none ↦ (raised ingestion_state_error, save doc db)
  | some s ↦ transition doc s change db
]
