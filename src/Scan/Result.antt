-- ===== src/Scan/Result.antt =====
-- `run_scan` of app/services/malware_scan.py as a whole.
use mathlib.Core.Path.{subst}
use rfp.Database.{
  Db, Document, Error, Outcome, Status, Status-discrete, Tables, commit, raised, returned, rollback,
  save, scan_failed, scanning,
}
use rfp.Prelude.{
  Option, ap, arith, if_neg, if_pos, none, refl, some, sym, true, ℕ, ◌+◌, ◌∙◌, ◌≡◌, ◌≢◌,
}
use rfp.Scan.{
  begun, fail_closed, fail_scan, guarded, refetched, reraise, run_scan, run_scan_body, scan_attempt,
  scan_row, with_path,
}
use rfp.Scan.Attempt.{Ended, Ended-fail_scan, QueueOnly, Settled, escaped, over, version_settles}
use rfp.Scan.Verdict.{is_exit, path_exit, path_verdict, verdict, version_exit}
use rfp.Scan.World.{ScanEnv, verified_at, verified_path}

reraise-Ended :
    (n : ℕ) (t : Status) (e : Error) (r : Outcome (Unit {0}) × Db)
    → Ended n t r.1
    → Ended n t (reraise e r).1
unfolding reraise
reraise-Ended n t e (returned done, db) h = h
reraise-Ended n t e (raised f, db) h = h

pub exit_not_scanning : (s : Status) → is_exit s ≡ true → s ≢ scanning
exit_not_scanning s x e = ground arith

module _ (env : ScanEnv) (org_id : ℕ) where
  refetched-Ended :
      (n : ℕ) (e : Error) (doc : Document) (o : Option Document) (db : Db)
      → o ≡ some doc
      → doc.ingestion_status ≡ scanning
      → doc.scan_attempt_count ≡ n
      → Ended n scan_failed (refetched env org_id e o db).1
  unfolding refetched
  refetched-Ended n e doc o db d s c =
      rw (d, if_pos (Status-discrete doc.ingestion_status scanning) s)
        (subst
          (λ m. Ended m scan_failed (reraise e (fail_scan env org_id "SCAN_SYSTEM_ERROR" doc db)).1)
          c
          (reraise-Ended doc.scan_attempt_count scan_failed e
            (fail_scan env org_id "SCAN_SYSTEM_ERROR" doc db)
            (Ended-fail_scan env org_id _ doc db s)))

  settled-Ended :
      (n : ℕ) (t : Status) (e : Error) (o : Option Document) (db : Db) (h : Ended n t db)
      → is_exit t ≡ true
      → o ≡ some h.row
      → Ended n t (refetched env org_id e o (rollback db)).1
  unfolding refetched
  settled-Ended n t e o db h x d =
      rw
        (
          d,
          if_neg (Status-discrete h.row.ingestion_status scanning)
              (λ q. exit_not_scanning t x (sym h.exit ∙ q)),
        )
        (record {
          row = h.row;
          committed_row = h.committed_row;
          working_row = h.committed_row;
          exit = h.exit;
          counted = h.counted;
        })

  guarded-Ended :
      (n : ℕ) (t : Status) (old : Tables) (doc : Document)
      → is_exit t ≡ true
      → old.document ≡ some doc
      → doc.ingestion_status ≡ scanning
      → doc.scan_attempt_count ≡ n
      → (r : Outcome (Unit {0}) × Db) → Settled n t old r
      → Ended n t (guarded env org_id r).1
  unfolding guarded fail_closed
  guarded-Ended n t old doc x d s c (returned done, db) (over h) = h
  guarded-Ended n t old doc x d s c (returned done, db) (escaped e y q k) = cc
  guarded-Ended n t old doc x d s c (raised e, db) (over h) =
      settled-Ended n t e _ db h x h.committed_row
  guarded-Ended n t old doc x d s c (raised e, db) (escaped e' y q k) =
      rw y (refetched-Ended n e doc _ (rollback db) (ap (λ (t : Tables). t.document) k ∙ d) s c)

  path-Ended :
      (quiet : QueueOnly env) (doc : Document) (o : Option ℕ) (db : Db)
      → db.committed.document ≡ some doc
      → doc.ingestion_status ≡ scanning
      → Ended doc.scan_attempt_count
          (path_verdict env doc.detected_content_type o)
          (with_path env org_id doc o db).1
  unfolding with_path run_scan_body
  path-Ended quiet doc none db d s = Ended-fail_scan env org_id _ doc db s
  path-Ended quiet doc (some path) db d s =
      guarded-Ended doc.scan_attempt_count _ db.committed doc
        (version_exit env path doc.detected_content_type env.version_info) d s refl _
        (version_settles env org_id quiet path doc env.version_info db s)

-- One scan attempt on a document that is SCANNING, whatever the scanner, the inspectors or the
-- files do and whatever they raise: what is committed is the verdict on what was observed, and the
-- attempt count is one higher. So the document is never left SCANNING.
pub run_scan-verdict :
    (env : ScanEnv) (org_id : ℕ) (doc : Document) (db : Db)
    → QueueOnly env
    → db.working.document ≡ some doc
    → doc.ingestion_status ≡ scanning
    → Ended (doc.scan_attempt_count + 1) (verdict env doc) (run_scan env org_id db).1
      × (is_exit (verdict env doc) ≡ true)
unfolding run_scan begun scan_attempt verdict verified_at
run_scan-verdict env org_id doc db quiet d s = (
  rw (d, if_pos (Status-discrete doc.ingestion_status scanning) s)
      (path-Ended env org_id quiet (begun env doc) (verified_path env (begun env doc))
        (commit (save (begun env doc) db)) refl s),
  path_exit env doc.detected_content_type (verified_path env doc),
)

-- The idempotency guard: a duplicate job on a document that is not SCANNING changes nothing.
pub run_scan_idle :
    (env : ScanEnv) (org_id : ℕ) (doc : Document) (db : Db)
    → db.working.document ≡ some doc
    → doc.ingestion_status ≢ scanning
    → run_scan env org_id db ≡ (returned tt, db)
unfolding run_scan scan_row
run_scan_idle env org_id doc db d p =
    subst (λ o. scan_row env org_id o db ≡ (returned tt, db)) (sym d)
      (rw (if_neg (Status-discrete doc.ingestion_status scanning) p))
