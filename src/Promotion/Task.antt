-- ===== src/Promotion/Task.antt =====
-- The callers of `promote_document`: promote_document_task of app/worker.py, run_promotion_sync and the
-- enqueue failure path of app/core/queue.py. Each opens a session of its own.
pub mod Recovers
use rfp.Database.{
  Db, Document, Exec, Outcome, ProposalProject, Status, clean_pending_promotion, promoting,
  promotion_error, promotion_failed, raised, returned, rollback,
}
use rfp.Ingestion.{Change, transition}
use rfp.Prelude.{Bool, Option, String, [], false, if◌then◌else◌, none, some, true}
use rfp.Promotion.{PromotionEnv, is_promoting, promote_document}

-- Only PromotionError is swallowed.
unfoldable pub swallowed : Outcome Document → Outcome (Unit {0})
swallowed (returned doc) = returned tt
swallowed (raised (promotion_error code)) = returned tt
swallowed (raised e) = raised e

-- Closing the session drops what is pending.
unfoldable pub swallow_promotion_error : Outcome Document × Db → Outcome (Unit {0}) × Db
swallow_promotion_error (r, db) = (swallowed r, rollback db)

-- The organization and the user are those of the rows.
abbrev pub env_for : PromotionEnv → Document → ProposalProject → PromotionEnv
env_for env doc project = record env {
  org_id = project.organization_id;
  user_id = some doc.created_by_id;
}

promote_row : PromotionEnv → Option Document → Option ProposalProject → Db → Outcome (Unit {0}) × Db
promote_row env (some doc) (some project) db =
    swallow_promotion_error (promote_document (env_for env doc project) db)
promote_row env _ _ db = (returned tt, rollback db)

unfoldable pub promote_document_task : PromotionEnv → Exec (Unit {0})
unfolding promote_row
promote_document_task env db =
    let opened = rollback db in
    promote_row env opened.working.document opened.working.project opened

unfoldable pub run_promotion_sync : PromotionEnv → Exec (Unit {0})
unfolding promote_row
run_promotion_sync env db =
    let opened = rollback db in
    promote_row env opened.working.document opened.working.project opened

abbrev pub promotion_queue_failed : String
promotion_queue_failed = "PROMOTION_QUEUE_FAILED"

unfoldable pub queue_failed_change : Document → ProposalProject → Option String → Change
queue_failed_change doc project summary = record {
  org_id = project.organization_id;
  user_id = some doc.created_by_id;
  reason_code = some promotion_queue_failed;
  safe_summary = summary;
  audit_detail = [];
}

unfoldable pub fail_promoting : ProposalProject → Outcome Document × Db → Db
fail_promoting project (raised e, db) = db
fail_promoting project (returned doc, db) =
    (transition doc promotion_failed
      (queue_failed_change doc project
        (some "Clean storage promotion failed to queue. An operator will review the document."))
      db).1

abbrev pub is_pending_promotion : Status → Bool
is_pending_promotion clean_pending_promotion = true
is_pending_promotion _ = false

unfoldable pub promotion_enqueue_failed : Document → ProposalProject → Db → Db
promotion_enqueue_failed doc project db =
    if is_pending_promotion doc.ingestion_status
    then fail_promoting project (transition doc promoting (queue_failed_change doc project none) db)
    else if is_promoting doc.ingestion_status
    then fail_promoting project (returned doc, db)
    else db

enqueue_failed_rows : Option Document → Option ProposalProject → Db → Db
enqueue_failed_rows (some doc) (some project) db = promotion_enqueue_failed doc project db
enqueue_failed_rows _ _ db = db

-- _handle_promotion_enqueue_failure
unfoldable pub handle_promotion_enqueue_failure : Db → Db
unfolding enqueue_failed_rows
handle_promotion_enqueue_failure db =
    let opened = rollback db in
    rollback (enqueue_failed_rows opened.working.document opened.working.project opened)
