-- ===== src/Scan/Task.antt =====
-- The callers of `run_scan`: `prepare_scan_attempt` of app/services/malware_scan.py,
-- `scan_document_task` of app/worker.py, and the enqueue failure path of app/core/queue.py, in the
-- mode with a queue. Each opens a session of its own.
use rfp.Database.{
  Db, Document, Exec, Outcome, ProposalProject, Status-discrete, commit, enqueue, number, raised,
  returned, rollback, save, scan_failed, scan_job, scanning, ◌>>=◌,
}
use rfp.Ingestion.{plain, transition}
use rfp.Prelude.{
  Bool, List, Option, [], if◌then◌else◌, ite, leb, ltb, min, none, some, ℕ, ◌&&◌, ◌*◌, ◌+◌, ◌-◌,
  ◌^◌, ◌∷◌,
}
use rfp.Scan.{begun, is_scanning, run_scan}
use rfp.Scan.World.{ScanEnv, safe_scan_failure_summary}
use rfp.Sessions.Middleware.{attempt}

unfoldable pub rearmed : ScanEnv → ℕ → Document → Exec (Option ℕ)
rearmed env org_id doc db =
    if leb env.scan_max_attempts doc.scan_attempt_count
    then (returned none, db)
    else (transition doc scanning (plain org_id (some doc.created_by_id)) >>= λ _ db'.
          (returned (some org_id), db'))
        db

unfoldable pub prepared : ScanEnv → Option Document → Option ProposalProject → Exec (Option ℕ)
unfolding rearmed
prepared env none project db = (returned none, db)
prepared env (some doc) none db = (returned none, db)
prepared env (some doc) (some project) db =
    ite (Status-discrete doc.ingestion_status scan_failed)
      (rearmed env project.organization_id doc db) (returned (some project.organization_id), db)

unfoldable pub prepare_scan_attempt : ScanEnv → Exec (Option ℕ)
unfolding prepared
prepare_scan_attempt env db = prepared env db.working.document db.working.project db

-- Whether another attempt is put on the queue: `up` tells whether Redis takes it.
unfoldable pub retry_if_left : ScanEnv → Bool → Option Document → Db → Db
retry_if_left env up none db = db
retry_if_left env up (some doc) db =
    ite (Status-discrete doc.ingestion_status scan_failed)
      (if ltb doc.scan_attempt_count env.scan_max_attempts && up
        then enqueue (scan_job doc.id) db
        else db)
      db

unfoldable pub after_scan : ScanEnv → Bool → Outcome (Unit {0}) × Db → Outcome (Unit {0}) × Db
unfolding retry_if_left
after_scan env up (raised e, db) = (raised e, rollback db)
after_scan env up (returned done, db) =
    (returned tt, rollback (retry_if_left env up db.working.document db))

unfoldable pub after_prepare : ScanEnv → Bool → Outcome (Option ℕ) × Db → Outcome (Unit {0}) × Db
unfolding after_scan
after_prepare env up (raised e, db) = (raised e, rollback db)
after_prepare env up (returned none, db) = (returned tt, rollback db)
after_prepare env up (returned (some org_id), db) = after_scan env up (run_scan env org_id db)

unfoldable pub scan_document_task : ScanEnv → Bool → Exec (Unit {0})
unfolding after_prepare prepare_scan_attempt
scan_document_task env up db = after_prepare env up (prepare_scan_attempt env (rollback db))

-- _handle_scan_enqueue_failure
unfoldable pub enqueue_failed_row :
    ScanEnv → Bool → Option Document → Option ProposalProject → Db → Db
unfolding retry_if_left
enqueue_failed_row env up none project db = db
enqueue_failed_row env up (some doc) none db = db
enqueue_failed_row env up (some doc) (some project) db =
    ite (Status-discrete doc.ingestion_status scanning)
      (let doc1 = record doc {
        scan_attempt_count = doc.scan_attempt_count + 1;
        scan_status = some "SCAN_ENQUEUE_FAILED";
      } in
        let db1 =
          (transition doc1 scan_failed
            (record {
              org_id = project.organization_id;
              user_id = some doc.created_by_id;
              reason_code = some "SCAN_ENQUEUE_FAILED";
              safe_summary = some safe_scan_failure_summary;
              audit_detail = ("scan_attempt_count", number doc1.scan_attempt_count) ∷ [];
            })
            db).1 in
        retry_if_left env up db1.working.document db1)
      db

unfoldable pub handle_scan_enqueue_failure : ScanEnv → Bool → Db → Db
unfolding enqueue_failed_row
handle_scan_enqueue_failure env up db =
    let db1 = rollback db in
    rollback (enqueue_failed_row env up db1.working.document db1.working.project db1)

-- A worker that dies in an attempt, right after the attempt has been counted and committed.
unfoldable pub crashed_row : ScanEnv → Option Document → Db → Db
crashed_row env none db = rollback db
crashed_row env (some doc) db =
    if is_scanning doc then commit (save (begun env doc) db) else rollback db

unfoldable pub crash_after : ScanEnv → Outcome (Option ℕ) × Db → Db
crash_after env (returned (some org_id), db) = crashed_row env db.working.document db
crash_after env (returned none, db) = rollback db
crash_after env (raised e, db) = rollback db

unfoldable pub crashed_task : ScanEnv → Db → Db
crashed_task env db = crash_after env (prepare_scan_attempt env (rollback db))

-- What can happen to a document that waits for a scan: a job is delivered, once or again, the first
-- enqueue fails, or the worker of a delivered job dies.
pub data ScanCall : Type 0 where
  delivered : ScanEnv → Bool → ScanCall
  enqueue_failed : ScanEnv → Bool → ScanCall
  crashed : ScanEnv → ScanCall

unfoldable pub scan_call : Db → ScanCall → Db
scan_call db (delivered env up) = (scan_document_task env up db).1
scan_call db (enqueue_failed env up) = handle_scan_enqueue_failure env up db
scan_call db (crashed env) = crashed_task env db

unfoldable pub scan_calls : Db → List ScanCall → Db
unfolding scan_call
scan_calls db [] = db
scan_calls db (c ∷ cs) = scan_calls (scan_call db c) cs

-- The delay before attempt number `attempt`, before jitter: enqueue_scan_retry of app/core/queue.py.
unfoldable pub retry_delay : ℕ → ℕ → ℕ → ℕ
retry_delay base cap attempt = min (base * 2 ^ (attempt - 1)) cap
