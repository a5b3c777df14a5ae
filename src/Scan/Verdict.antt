-- ===== src/Scan/Verdict.antt =====
-- What a scan attempt of app/services/malware_scan.py should decide, from what it observes alone:
-- no database, no exceptions, no order of writes.
use rfp.Database.{
  Document, Outcome, Status, clean_pending_promotion, raised, rejected_content_policy,
  rejected_malware, returned, scan_failed,
}
use rfp.Prelude.{
  Bool, Bool-cases, Option, String, arith, false, if◌then◌else◌, inl, inr, none, refl, some, str_eq,
  true, ℕ, ◌≡◌,
}
use rfp.Scan.{is_inspection_failure}
use rfp.Scan.World.{
  PolicyResult, ScanEnv, ScanOutcome, ScanResult, VersionInfo, docx_mime, found, is_signature_stale,
  pdf_mime, verified_path,
}

abbrev pub policy_verdict : Bool → PolicyResult → Status
policy_verdict failed result =
    if result.passed
    then clean_pending_promotion
    else if failed
    then scan_failed
    else rejected_content_policy

abbrev pub inspected_verdict : (PolicyResult → Bool) → Outcome PolicyResult → Status
inspected_verdict failed (raised e) = scan_failed
inspected_verdict failed (returned result) = policy_verdict (failed result) result

abbrev pub type_verdict : ScanEnv → ℕ → Option String → Status
type_verdict env path none = scan_failed
type_verdict env path (some t) =
    if str_eq t pdf_mime
    then inspected_verdict is_inspection_failure (env.check_pdf path)
    else if str_eq t docx_mime
    then inspected_verdict (λ _. false) (env.check_docx path)
    else scan_failed

abbrev pub outcome_verdict : ScanEnv → ℕ → Option String → ScanOutcome → Status
outcome_verdict env path t found = rejected_malware
outcome_verdict env path t ScanOutcome.clean = type_verdict env path t
outcome_verdict env path t _ = scan_failed

abbrev pub stream_verdict : ScanEnv → ℕ → Option String → Outcome ScanResult → Status
stream_verdict env path t (raised e) = scan_failed
stream_verdict env path t (returned r) = outcome_verdict env path t r.outcome

abbrev pub version_verdict : ScanEnv → ℕ → Option String → Outcome (Option VersionInfo) → Status
version_verdict env path t (raised e) = scan_failed
version_verdict env path t (returned none) = scan_failed
version_verdict env path t (returned (some info)) =
    if is_signature_stale env info
    then scan_failed
    else stream_verdict env path t (env.scan_stream path)

abbrev pub path_verdict : ScanEnv → Option String → Option ℕ → Status
path_verdict env t none = scan_failed
path_verdict env t (some path) = version_verdict env path t env.version_info

unfoldable pub verdict : ScanEnv → Document → Status
verdict env doc = path_verdict env doc.detected_content_type (verified_path env doc)

abbrev pub is_exit : Status → Bool
is_exit clean_pending_promotion = true
is_exit rejected_malware = true
is_exit rejected_content_policy = true
is_exit scan_failed = true
is_exit _ = false

policy_exit : (failed : Bool) (r : PolicyResult) → is_exit (policy_verdict failed r) ≡ true
policy_exit failed r = ground arith

inspected_exit :
    (failed : PolicyResult → Bool) (o : Outcome PolicyResult)
    → is_exit (inspected_verdict failed o) ≡ true
inspected_exit failed (raised e) = refl
inspected_exit failed (returned r) = policy_exit (failed r) r

type_exit :
    (env : ScanEnv) (path : ℕ) (t : Option String) → is_exit (type_verdict env path t) ≡ true
type_exit env path none = refl
type_exit env path (some t) = elim (Bool-cases (str_eq t pdf_mime)) [
  | inl p ↦ rw p (inspected_exit is_inspection_failure (env.check_pdf path))
  | inr p ↦ rw p (elim (Bool-cases (str_eq t docx_mime)) [
    | inl q ↦ rw q (inspected_exit (λ _. false) (env.check_docx path))
    | inr q ↦ rw q
  ])
]

outcome_exit :
    (env : ScanEnv) (path : ℕ) (t : Option String) (o : ScanOutcome)
    → is_exit (outcome_verdict env path t o) ≡ true
outcome_exit env path t ScanOutcome.clean = type_exit env path t
outcome_exit env path t found = refl
outcome_exit env path t _ = refl

stream_exit :
    (env : ScanEnv) (path : ℕ) (t : Option String) (o : Outcome ScanResult)
    → is_exit (stream_verdict env path t o) ≡ true
stream_exit env path t (raised e) = refl
stream_exit env path t (returned r) = outcome_exit env path t r.outcome

pub version_exit :
    (env : ScanEnv) (path : ℕ) (t : Option String) (o : Outcome (Option VersionInfo))
    → is_exit (version_verdict env path t o) ≡ true
version_exit env path t (raised e) = refl
version_exit env path t (returned none) = refl
version_exit env path t (returned (some info)) = elim (Bool-cases (is_signature_stale env info)) [
  | inl p ↦ rw p
  | inr p ↦ rw p (stream_exit env path t (env.scan_stream path))
]

pub path_exit :
    (env : ScanEnv) (t : Option String) (o : Option ℕ) → is_exit (path_verdict env t o) ≡ true
path_exit env t none = refl
path_exit env t (some path) = version_exit env path t env.version_info
