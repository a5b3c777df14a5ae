-- ===== src/Scan/Attempt.antt =====
-- How one scan attempt of app/services/malware_scan.py ends, on every path.
use rfp.Database.{
  Db, Document, Error, Outcome, Status, Tables, clean_pending_promotion, raised,
  rejected_content_policy, rejected_malware, returned, scan_failed, scanning,
}
use rfp.Ingestion.{Change, is_allowed, moved, plain, transition}
use rfp.Ingestion.Step.{after_move, transition_allowed}
use rfp.Prelude.{
  Bool, Bool-cases, Option, String, arith, inl, inr, none, refl, some, str_eq, true, ℕ, ◌≡◌,
}
use rfp.Scan.{
  apply_policy, apply_result, by_content_type, fail_scan, inspected, run_content_policy, scanned,
  void, with_version,
}
use rfp.Scan.Verdict.{
  inspected_verdict, is_exit, outcome_verdict, policy_verdict, stream_verdict, type_verdict,
  version_verdict,
}
use rfp.Scan.World.{
  PolicyResult, ScanEnv, ScanOutcome, ScanResult, VersionInfo, docx_mime, found, is_signature_stale,
  pdf_mime,
}

-- The queue call after a clean result leaves the tables alone, whether or not it raises.
pub record QueueOnly (env : ScanEnv) : Type 0 where
  pub same_rows :
      (n : ℕ) (db : Db)
      → ((env.enqueue_promotion n db).1.committed ≡ db.committed)
        × ((env.enqueue_promotion n db).1.working ≡ db.working)

-- The attempt numbered `n` is over: its result `t` is committed.
pub record Ended (n : ℕ) (t : Status) (db : Db) : Type 0 where
  pub row : Document
  pub committed_row : db.committed.document ≡ some row
  pub working_row : db.working.document ≡ some row
  pub exit : row.ingestion_status ≡ t
  pub counted : row.scan_attempt_count ≡ n

scanning_allows : (s t : Status) → s ≡ scanning → is_exit t ≡ true → is_allowed s t ≡ true
unfolding is_allowed
scanning_allows s t e x = ground arith

Ended-after_move :
    (doc : Document) (t : Status) (change : Change) (db : Db)
    → Ended doc.scan_attempt_count t (after_move doc t change db)
unfolding moved
Ended-after_move doc t change db = record {
  row = moved doc t change;
  committed_row = refl;
  working_row = refl;
  exit = refl;
  counted = refl;
}

Ended-transition :
    (doc : Document) (t : Status) (change : Change) (db : Db)
    → doc.ingestion_status ≡ scanning
    → is_exit t ≡ true
    → Ended doc.scan_attempt_count t (transition doc t change db).1
Ended-transition doc t change db e x =
    rw (transition_allowed doc t change db (scanning_allows doc.ingestion_status t e x))
      (Ended-after_move doc t change db)

Ended-void :
    {A : Type 0} (n : ℕ) (t : Status) (r : Outcome A × Db) → Ended n t r.1 → Ended n t (void r).1
Ended-void n t (returned a, db) h = h
Ended-void n t (raised e, db) h = h

pub Ended-fail_scan :
    (env : ScanEnv) (org_id : ℕ) (reason_code : String) (doc : Document) (db : Db)
    → doc.ingestion_status ≡ scanning
    → Ended doc.scan_attempt_count scan_failed (fail_scan env org_id reason_code doc db).1
unfolding fail_scan
Ended-fail_scan env org_id reason_code doc db e =
    Ended-void doc.scan_attempt_count _ _ (Ended-transition _ scan_failed _ db e refl)

-- What the body of an attempt leaves behind: the attempt is over, or an exception got out before
-- anything was committed.
pub data Settled (n : ℕ) (t : Status) (old : Tables) (r : Outcome (Unit {0}) × Db) : Type 0 where
  over : Ended n t r.1 → Settled n t old r
  escaped : (e : Error) → t ≡ scan_failed → r.0 ≡ raised e → r.1.committed ≡ old → Settled n t old r

module _ (env : ScanEnv) (org_id : ℕ) (quiet : QueueOnly env) where
  queued-Ended :
      (n k : ℕ) (t : Status) (db : Db) → Ended n t db → Ended n t (env.enqueue_promotion k db).1
  queued-Ended n k t db h = record {
    row = h.row;
    committed_row = rw (quiet.same_rows k db).0 h.committed_row;
    working_row = rw (quiet.same_rows k db).1 h.working_row;
    exit = h.exit;
    counted = h.counted;
  }

  apply_policy_settles :
      (failed : Bool) (result : PolicyResult) (doc : Document) (db : Db)
      → doc.ingestion_status ≡ scanning
      → Ended doc.scan_attempt_count
          (policy_verdict failed result)
          (apply_policy env org_id failed result doc db).1
  unfolding apply_policy
  apply_policy_settles failed result doc db e = elim (Bool-cases result.passed) [
    | inl p ↦
        rw
          (
            p,
            transition_allowed
                (record doc {
                  content_policy_version = some result.policy_version;
                  content_policy_status = some "PASSED";
                })
                clean_pending_promotion (plain org_id (some doc.created_by_id)) db
                (scanning_allows _ clean_pending_promotion e refl),
          )
          (queued-Ended doc.scan_attempt_count _ _ _
            (Ended-after_move _ clean_pending_promotion _ db))
    | inr p ↦ rw p (elim (Bool-cases failed) [
      | inl f ↦ rw f (Ended-fail_scan env org_id _ _ db e)
      | inr f ↦ rw f (
          Ended-void doc.scan_attempt_count _ _
            (Ended-transition _ rejected_content_policy _ db e refl))
    ])
  ]

  inspected_settles :
      (failed : PolicyResult → Bool) (o : Outcome PolicyResult) (doc : Document) (db : Db)
      → doc.ingestion_status ≡ scanning
      → Settled doc.scan_attempt_count
          (inspected_verdict failed o)
          db.committed
          (inspected env org_id failed doc o db)
  unfolding inspected
  inspected_settles failed (raised x) doc db e = escaped x refl refl refl
  inspected_settles failed (returned result) doc db e =
      over (apply_policy_settles (failed result) result doc db e)

  policy_settles :
      (path : ℕ) (doc : Document) (o : Option String) (db : Db)
      → doc.ingestion_status ≡ scanning
      → Settled doc.scan_attempt_count
          (type_verdict env path o)
          db.committed
          (by_content_type env org_id path doc o db)
  unfolding by_content_type
  policy_settles path doc none db e = over (Ended-fail_scan env org_id _ doc db e)
  policy_settles path doc (some t) db e = elim (Bool-cases (str_eq t pdf_mime)) [
    | inl p ↦ rw p (inspected_settles _ (env.check_pdf path) doc db e)
    | inr p ↦ rw p (elim (Bool-cases (str_eq t docx_mime)) [
      | inl q ↦ rw q (inspected_settles _ (env.check_docx path) doc db e)
      | inr q ↦ rw q (over (Ended-fail_scan env org_id _ doc db e))
    ])
  ]

  result_settles :
      (path : ℕ) (doc : Document) (o : ScanOutcome) (signature engine version : Option String)
      (db : Db)
      → doc.ingestion_status ≡ scanning
      → Settled doc.scan_attempt_count
          (outcome_verdict env path doc.detected_content_type o)
          db.committed
          (apply_result env org_id path doc
            (record {
              outcome = o;
              signature_name = signature;
              engine_version = engine;
              signature_version = version;
            })
            db)
  unfolding apply_result run_content_policy
  result_settles path doc found s g v db e =
      over (Ended-void doc.scan_attempt_count _ _ (Ended-transition _ rejected_malware _ db e refl))
  result_settles path doc ScanOutcome.clean s g v db e =
      policy_settles path _ doc.detected_content_type db e
  result_settles path doc _ s g v db e = over (Ended-fail_scan env org_id _ _ db e)

  scanned_settles :
      (path : ℕ) (doc : Document) (o : Outcome ScanResult) (db : Db)
      → doc.ingestion_status ≡ scanning
      → Settled doc.scan_attempt_count
          (stream_verdict env path doc.detected_content_type o)
          db.committed
          (scanned env org_id path doc o db)
  unfolding scanned
  scanned_settles path doc (raised x) db e = escaped x refl refl refl
  scanned_settles path doc (returned r) db e =
      result_settles path doc r.outcome r.signature_name r.engine_version r.signature_version db e

  pub version_settles :
      (path : ℕ) (doc : Document) (o : Outcome (Option VersionInfo)) (db : Db)
      → doc.ingestion_status ≡ scanning
      → Settled doc.scan_attempt_count
          (version_verdict env path doc.detected_content_type o)
          db.committed
          (with_version env org_id path doc o db)
  unfolding with_version
  version_settles path doc (raised x) db e = escaped x refl refl refl
  version_settles path doc (returned none) db e = over (Ended-fail_scan env org_id _ doc db e)
  version_settles path doc (returned (some info)) db e =
      elim (Bool-cases (is_signature_stale env info)) [
        | inl p ↦ rw p (over (Ended-fail_scan env org_id _ _ db e))
        | inr p ↦ rw p (scanned_settles path _ (env.scan_stream path) db e)
      ]
