-- ===== src/Scan/Clearance.antt =====
-- What it takes to leave quarantine: the clean result of app/services/malware_scan.py.
use rfp.Database.{Document, Outcome, clean_pending_promotion, raised, returned}
use rfp.Prelude.{
  Bool, Bool-cases, Option, String, ap, arith, eq_iff, false, inl, inr, none, refl, some, str_eq,
  true, ℕ, ◌↔◌, ◌≡◌,
}
use rfp.Scan.{is_inspection_failure}
use rfp.Scan.Intact.{
  IsFresh, IsIntact, is_signature_stale-IsFresh, is_signature_stale-false, verified_path-IsIntact,
  verified_path-some,
}
use rfp.Scan.Verdict.{
  inspected_verdict, outcome_verdict, path_verdict, stream_verdict, type_verdict, verdict,
  version_verdict,
}
use rfp.Scan.World.{
  PolicyResult, ScanEnv, ScanOutcome, ScanResult, VersionInfo, docx_mime, found, is_signature_stale,
  pdf_mime, verified_path,
}

-- The inspector for the detected type answered, and passed the file.
pub data Passed (env : ScanEnv) (path : ℕ) (t : Option String) : Type 0 where
  by_pdf :
      (r : PolicyResult)
      → t ≡ some pdf_mime
      → env.check_pdf path ≡ returned r
      → r.passed ≡ true
      → Passed env path t
  by_docx :
      (r : PolicyResult)
      → t ≡ some docx_mime
      → env.check_docx path ≡ returned r
      → r.passed ≡ true
      → Passed env path t

-- Everything that has to be seen before a document may leave quarantine.
pub record Cleared (env : ScanEnv) (doc : Document) : Type 0 where
  pub path : ℕ
  pub intact : IsIntact env doc path
  pub info : VersionInfo
  pub scanner : env.version_info ≡ returned (some info)
  pub fresh : IsFresh env info
  pub result : ScanResult
  pub streamed : env.scan_stream path ≡ returned result
  pub harmless : result.outcome ≡ ScanOutcome.clean
  pub inspected : Passed env path doc.detected_content_type

inspected_passes :
    (failed : PolicyResult → Bool) (o : Outcome PolicyResult)
    → inspected_verdict failed o ≡ clean_pending_promotion
    → (r : PolicyResult) × (o ≡ returned r) × (r.passed ≡ true)
inspected_passes failed (raised e) h = cc
inspected_passes failed (returned r) h = (r, refl, ground arith)

type_passes :
    (env : ScanEnv) (path : ℕ) (t : Option String)
    → type_verdict env path t ≡ clean_pending_promotion
    → Passed env path t
type_passes env path none h = cc
type_passes env path (some t) h = elim (Bool-cases (str_eq t pdf_mime)) [
  | inl p ↦
      let (r, o, q) = inspected_passes is_inspection_failure (env.check_pdf path) (rw p at h) in
      by_pdf r (ap some ((eq_iff t pdf_mime).0 p)) o q
  | inr p ↦ elim (Bool-cases (str_eq t docx_mime)) [
    | inl d ↦
        let (r, o, q) = inspected_passes (λ _. false) (env.check_docx path) (rw (p, d) at h) in
        by_docx r (ap some ((eq_iff t docx_mime).0 d)) o q
    | inr d ↦ cc (rw (p, d) at h)
  ]
]

outcome_passes :
    (env : ScanEnv) (path : ℕ) (t : Option String) (o : ScanOutcome)
    → outcome_verdict env path t o ≡ clean_pending_promotion
    → (o ≡ ScanOutcome.clean) × Passed env path t
outcome_passes env path t ScanOutcome.clean h = (refl, type_passes env path t h)
outcome_passes env path t found h = cc
outcome_passes env path t _ h = cc

stream_passes :
    (env : ScanEnv) (path : ℕ) (t : Option String) (o : Outcome ScanResult)
    → stream_verdict env path t o ≡ clean_pending_promotion
    → (r : ScanResult) × (o ≡ returned r) × (r.outcome ≡ ScanOutcome.clean) × Passed env path t
stream_passes env path t (raised e) h = cc
stream_passes env path t (returned r) h =
    let (c, p) = outcome_passes env path t r.outcome h in (r, refl, c, p)

version_passes :
    (env : ScanEnv) (path : ℕ) (t : Option String) (o : Outcome (Option VersionInfo))
    → version_verdict env path t o ≡ clean_pending_promotion
    → (info : VersionInfo) × (o ≡ returned (some info))
      × (is_signature_stale env info ≡ false)
      × (stream_verdict env path t (env.scan_stream path) ≡ clean_pending_promotion)
version_passes env path t (raised e) h = cc
version_passes env path t (returned none) h = cc
version_passes env path t (returned (some info)) h =
    elim (Bool-cases (is_signature_stale env info)) [
      | inl p ↦ cc (rw p at h)
      | inr p ↦ (info, refl, p, rw p at h)
    ]

path_passes :
    (env : ScanEnv) (doc : Document) (o : Option ℕ)
    → verified_path env doc ≡ o
    → path_verdict env doc.detected_content_type o ≡ clean_pending_promotion
    → Cleared env doc
path_passes env doc none e h = cc
path_passes env doc (some path) e h =
    let t = doc.detected_content_type in
    let (info, a, f, g) = version_passes env path t env.version_info h in
    let (r, s, c, p) = stream_passes env path t (env.scan_stream path) g in
    record {
      path = path;
      intact = verified_path-some env doc path e;
      info = info;
      scanner = a;
      fresh = is_signature_stale-false env info f;
      result = r;
      streamed = s;
      harmless = c;
      inspected = p;
    }

passed_type :
    (env : ScanEnv) (path : ℕ) (t : Option String)
    → Passed env path t
    → type_verdict env path t ≡ clean_pending_promotion
passed_type env path t (by_pdf r e o p) = rw (e, o, p)
passed_type env path t (by_docx r e o p) = rw (e, o, p)

-- A document is cleared for promotion exactly if a file with the recorded digest stands where its
-- identifier resolves to, the scanner answered with signatures no older than the setting allows and
-- found nothing, and the inspector for its detected type passed it.
pub verdict_iff :
    (env : ScanEnv) (doc : Document) → (verdict env doc ≡ clean_pending_promotion) ↔ Cleared env doc
unfolding verdict is_signature_stale
verdict_iff env doc = (
  λ h. path_passes env doc (verified_path env doc) refl h,
  λ c.
      rw
        (
          verified_path-IsIntact env doc c.path c.intact,
          c.scanner,
          is_signature_stale-IsFresh env c.info c.fresh,
          c.streamed,
          c.harmless,
        )
        (passed_type env c.path doc.detected_content_type c.inspected),
)
