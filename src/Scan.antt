-- ===== src/Scan.antt =====
-- app/services/malware_scan.py: one scan attempt, its failure paths, and the bounded retry. ClamAV,
-- the two content-policy inspectors and the quarantine directory are seen through `ScanEnv`.
pub mod World
pub mod Intact
pub mod Verdict
pub mod Attempt
pub mod Clearance
pub mod Result
pub mod Task
pub mod Bound
mod Examples
use rfp.Database.{
  Db, Detail, Document, Error, Exec, Outcome, Status-discrete, clean_pending_promotion, commit,
  flag, number, optional_text, raised, rejected_content_policy, rejected_malware, returned,
  rollback, save, scan_failed, scanning, ◌>>=◌,
}
use rfp.Ingestion.{plain, transition}
use rfp.Prelude.{
  Bool, Option, String, [], false, if◌then◌else◌, ite, leb, none, not, or_else, some, str_eq, true,
  ℕ, ◌&&◌, ◌+◌, ◌∷◌,
}
use rfp.Prelude.Dict.{Dict}
use rfp.Scan.World.{
  PolicyResult, ScanEnv, ScanOutcome, ScanResult, VersionInfo, docx_mime, found, is_signature_stale,
  outcome_reason, pdf_mime, safe_content_policy_summary, safe_malware_summary,
  safe_scan_failure_summary, verified_path,
}

abbrev pub void {ℓ} : {A : Type ℓ} → Outcome A × Db → Outcome (Unit {0}) × Db
void (returned a, db) = (returned tt, db)
void (raised e, db) = (raised e, db)

unfoldable pub failure_detail : ScanEnv → Document → Dict Detail
failure_detail env doc =
    ("scan_attempt_count", number doc.scan_attempt_count)
    ∷ (if leb env.scan_max_attempts doc.scan_attempt_count
        then ("scan_exhausted", flag true) ∷ []
        else [])

unfoldable pub fail_scan : ScanEnv → ℕ → String → Document → Exec (Unit {0})
unfolding failure_detail
fail_scan env org_id reason_code doc db =
    let doc' = record doc {
      scan_status = some reason_code;
      scan_completed_at = some env.failed_at;
    } in
    void (
      transition doc' scan_failed
        (record {
          org_id = org_id;
          user_id = some doc.created_by_id;
          reason_code = some reason_code;
          safe_summary = some safe_scan_failure_summary;
          audit_detail = failure_detail env doc;
        })
        db)

unfoldable pub is_inspection_failure : PolicyResult → Bool
is_inspection_failure r =
    not r.passed && elim r.reason_code [ none ↦ false | some c ↦ str_eq c "PDF_INSPECTION_FAILED" ]

-- The end of _run_content_policy, once an inspector has answered.
unfoldable pub apply_policy : ScanEnv → ℕ → Bool → PolicyResult → Document → Exec (Unit {0})
apply_policy env org_id inspection_failed result doc db =
    let doc1 = record doc { content_policy_version = some result.policy_version } in
    if result.passed
    then (let doc2 = record doc1 { content_policy_status = some "PASSED" } in
        (transition doc2 clean_pending_promotion (plain org_id (some doc.created_by_id)) >>= λ d.
        env.enqueue_promotion d.id)
          db)
    else if inspection_failed
    then fail_scan env org_id (or_else result.reason_code "PDF_INSPECTION_FAILED")
        (record doc1 { content_policy_status = some "FAILED" }) db
    else void (
        transition (record doc1 { content_policy_status = some "REJECTED" }) rejected_content_policy
          (record {
            org_id = org_id;
            user_id = some doc.created_by_id;
            reason_code = result.reason_code;
            safe_summary = some safe_content_policy_summary;
            audit_detail = [];
          })
          db)

inspected : ScanEnv → ℕ → (PolicyResult → Bool) → Document → Outcome PolicyResult → Exec (Unit {0})
inspected env org_id failed doc (raised e) db = (raised e, save doc db)
inspected env org_id failed doc (returned result) db =
    apply_policy env org_id (failed result) result doc db

unfoldable pub by_content_type : ScanEnv → ℕ → ℕ → Document → Option String → Exec (Unit {0})
unfolding inspected is_inspection_failure
by_content_type env org_id path doc none db = fail_scan env org_id "UNSUPPORTED_CONTENT_TYPE" doc db
by_content_type env org_id path doc (some content_type) db =
    if str_eq content_type pdf_mime
    then inspected env org_id is_inspection_failure doc (env.check_pdf path) db
    else if str_eq content_type docx_mime
    then inspected env org_id (λ _. false) doc (env.check_docx path) db
    else fail_scan env org_id "UNSUPPORTED_CONTENT_TYPE" doc db

unfoldable pub run_content_policy : ScanEnv → ℕ → ℕ → Document → Exec (Unit {0})
unfolding by_content_type
run_content_policy env org_id path doc db =
    by_content_type env org_id path doc doc.detected_content_type db

abbrev or_keep : Option String → Option String → Option String
or_keep none old = old
or_keep (some new) old = some new

-- What follows the answer of `scan_stream`.
unfoldable pub apply_result : ScanEnv → ℕ → ℕ → Document → ScanResult → Exec (Unit {0})
apply_result env org_id path doc result db =
    let doc1 = record doc {
      scan_completed_at = some env.scanned_at;
      scan_engine_version = or_keep result.engine_version doc.scan_engine_version;
      scan_signature_version = or_keep result.signature_version doc.scan_signature_version;
    } in
    elim result.outcome [
      | found ↦ void (
          transition (record doc1 { scan_status = some "FOUND" }) rejected_malware
            (record {
              org_id = org_id;
              user_id = some doc.created_by_id;
              reason_code = some "MALWARE_DETECTED";
              safe_summary = some safe_malware_summary;
              audit_detail = ("signature_name", optional_text result.signature_name) ∷ [];
            })
            db)
      | ScanOutcome.clean ↦
          run_content_policy env org_id path (record doc1 { scan_status = some "CLEAN" }) db
      | failure ↦ fail_scan env org_id (outcome_reason failure) doc1 db
    ]

scanned : ScanEnv → ℕ → ℕ → Document → Outcome ScanResult → Exec (Unit {0})
scanned env org_id path doc (raised e) db = (raised e, save doc db)
scanned env org_id path doc (returned result) db = apply_result env org_id path doc result db

pub with_version : ScanEnv → ℕ → ℕ → Document → Outcome (Option VersionInfo) → Exec (Unit {0})
unfolding scanned
with_version env org_id path doc (raised e) db = (raised e, save doc db)
with_version env org_id path doc (returned none) db =
    fail_scan env org_id "SCANNER_UNAVAILABLE" doc db
with_version env org_id path doc (returned (some info)) db =
    let doc1 = record doc {
      scan_engine_version = info.engine_version;
      scan_signature_version = info.signature_version;
    } in
    if is_signature_stale env info
    then fail_scan env org_id "SIGNATURE_DATABASE_STALE" doc1 db
    else scanned env org_id path doc1 (env.scan_stream path) db

unfoldable pub run_scan_body : ScanEnv → ℕ → ℕ → Document → Exec (Unit {0})
unfolding with_version
run_scan_body env org_id path doc db = with_version env org_id path doc env.version_info db

reraise : Error → Outcome (Unit {0}) × Db → Outcome (Unit {0}) × Db
reraise e (returned _, db) = (raised e, db)
reraise e (raised f, db) = (raised f, db)

pub is_scanning : Document → Bool
is_scanning doc = ite (Status-discrete doc.ingestion_status scanning) true false

-- The `except` branch: roll back, read the row again, and fail it if it is still SCANNING.
refetched : ScanEnv → ℕ → Error → Option Document → Db → Outcome (Unit {0}) × Db
unfolding reraise is_scanning
refetched env org_id e none db = (raised e, db)
refetched env org_id e (some doc) db =
    if is_scanning doc
    then reraise e (fail_scan env org_id "SCAN_SYSTEM_ERROR" doc db)
    else (raised e, db)

unfoldable pub fail_closed : ScanEnv → ℕ → Error → Db → Outcome (Unit {0}) × Db
unfolding refetched
fail_closed env org_id e db =
    let db1 = rollback db in refetched env org_id e db1.working.document db1

guarded : ScanEnv → ℕ → Outcome (Unit {0}) × Db → Outcome (Unit {0}) × Db
guarded env org_id (returned done, db) = (returned done, db)
guarded env org_id (raised e, db) = fail_closed env org_id e db

-- The attempt is recorded and committed before anything can fail.
unfoldable pub begun : ScanEnv → Document → Document
begun env doc = record doc {
  scan_started_at = some env.started_at;
  scan_digest_snapshot = doc.sha256_digest;
  scan_attempt_count = doc.scan_attempt_count + 1;
}

pub with_path : ScanEnv → ℕ → Document → Option ℕ → Exec (Unit {0})
unfolding guarded
with_path env org_id doc none db = fail_scan env org_id "QUARANTINE_INTEGRITY_MISMATCH" doc db
with_path env org_id doc (some path) db = guarded env org_id (run_scan_body env org_id path doc db)

unfoldable pub scan_attempt : ScanEnv → ℕ → Document → Exec (Unit {0})
unfolding with_path
scan_attempt env org_id doc db = with_path env org_id doc (verified_path env doc) db

unfoldable pub scan_row : ScanEnv → ℕ → Option Document → Exec (Unit {0})
unfolding begun is_scanning
scan_row env org_id none db = (returned tt, db)
scan_row env org_id (some doc) db =
    if is_scanning doc
    then scan_attempt env org_id (begun env doc) (commit (save (begun env doc) db))
    else (returned tt, db)

unfoldable pub run_scan : ScanEnv → ℕ → Exec (Unit {0})
unfolding scan_row
run_scan env org_id db = scan_row env org_id db.working.document db
