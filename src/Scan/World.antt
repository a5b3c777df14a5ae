-- ===== src/Scan/World.antt =====
-- What app/services/malware_scan.py takes from outside its own file, and how it checks the stored
-- file and the age of the signatures.
use rfp.Database.{Document, Exec, Outcome}
use rfp.Prelude.{
  Bool, List, Option, String, [], false, if◌then◌else◌, ltb, none, some, str_eq, true, ℕ, ◌&&◌,
  ◌++◌, ◌-◌, ◌∷◌,
}

pub data ScanOutcome : Type 0 where
  clean found unavailable timeout protocol_error error size_limit_exceeded : ScanOutcome

pub record VersionInfo : Type 0 where
  pub engine_version : Option String
  pub signature_version : Option String
  pub signature_timestamp : Option ℕ

pub record ScanResult : Type 0 where
  pub outcome : ScanOutcome
  pub signature_name : Option String
  pub engine_version : Option String
  pub signature_version : Option String

pub record PolicyResult : Type 0 where
  pub passed : Bool
  pub reason_code : Option String
  pub policy_version : String

-- What `resolve_quarantine_path` does with the identifier in a stored path.
pub data Resolved : Type 0 where
  storage_error os_error : Resolved
  at_path : ℕ → Resolved

-- What one attempt meets outside the database. `open_file` gives the chunks that reads return, or
-- nothing where the file cannot be read. Times are seconds.
pub record ScanEnv : Type 0 where
  pub scan_max_attempts : ℕ
  pub max_signature_age_seconds : ℕ
  pub resolve : String → Resolved
  pub is_file : ℕ → Bool
  pub open_file : ℕ → Option (List (List ℕ))
  pub sha256 : List ℕ → String
  pub version_info : Outcome (Option VersionInfo)
  pub scan_stream : ℕ → Outcome ScanResult
  pub check_pdf : ℕ → Outcome PolicyResult
  pub check_docx : ℕ → Outcome PolicyResult
  pub enqueue_promotion : ℕ → Exec (Unit {0})
  pub started_at : ℕ
  pub checked_at : ℕ
  pub scanned_at : ℕ
  pub failed_at : ℕ

abbrev pub pdf_mime : String
pdf_mime = "application/pdf"

abbrev pub docx_mime : String
docx_mime = "application/vnd.openxmlformats-officedocument.wordprocessingml.document"

abbrev pub safe_scan_failure_summary : String
safe_scan_failure_summary =
    "The document could not be scanned. It will be automatically retried or an operator will review it."

abbrev pub safe_malware_summary : String
safe_malware_summary = "The document was rejected because it failed a malware scan."

abbrev pub safe_content_policy_summary : String
safe_content_policy_summary =
    "The document was rejected because it did not pass content-safety checks."

-- _CLAMAV_OUTCOME_REASON_CODES; the two outcomes that it lacks are handled before the lookup.
unfoldable pub outcome_reason : ScanOutcome → String
outcome_reason unavailable = "SCANNER_UNAVAILABLE"
outcome_reason timeout = "SCANNER_TIMEOUT"
outcome_reason size_limit_exceeded = "SCAN_SIZE_LIMIT_EXCEEDED"
outcome_reason _ = "SCANNER_PROTOCOL_ERROR"

-- The read loop ends at the first empty chunk.
unfoldable pub read_all : List (List ℕ) → List ℕ
read_all [] = []
read_all ([] ∷ rest) = []
read_all ((b ∷ bs) ∷ rest) = (b ∷ bs) ++ read_all rest

unfoldable pub digest_of : ScanEnv → Option (List (List ℕ)) → Option String
digest_of env none = none
digest_of env (some chunks) = some (env.sha256 (read_all chunks))

abbrev pub read_digest : ScanEnv → ℕ → Option String
read_digest env path = digest_of env (env.open_file path)

unfoldable pub same_digest : Option String → Option String → Bool
same_digest (some recorded) (some current) = str_eq current recorded
same_digest _ _ = false

-- The file that the identifier resolves to, if it is there with the recorded digest.
unfoldable pub verified_at : ScanEnv → Document → Resolved → Option ℕ
verified_at env doc storage_error = none
verified_at env doc os_error = none
verified_at env doc (at_path path) =
    if env.is_file path && same_digest doc.sha256_digest (read_digest env path)
    then some path
    else none

-- _resolve_and_verify_quarantine_path, with the guard around its call: an `OSError` is `none` too.
abbrev pub verified_path : ScanEnv → Document → Option ℕ
verified_path env doc = verified_at env doc (env.resolve doc.file_path)

unfoldable pub is_signature_stale : ScanEnv → VersionInfo → Bool
is_signature_stale env info = elim info.signature_timestamp [
  | none ↦ true
  | some stamp ↦ ltb env.max_signature_age_seconds (env.checked_at - stamp)
]
