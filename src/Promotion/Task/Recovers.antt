-- ===== src/Promotion/Task/Recovers.antt =====
-- A promotion that could not be queued is not lost (app/core/queue.py, app/worker.py).
use mathlib.Core.Path.{subst}
use rfp.Database.{
  Db, Document, Outcome, ProposalProject, Status, promoting, promotion_failed, returned, rollback,
}
use rfp.Ingestion.{is_allowed, moved, transition}
use rfp.Ingestion.Step.{after_move, transition_allowed}
use rfp.Prelude.{
  Option, String, ap, arith, false, if_both, none, refl, some, str_eq, sym, true, ℕ, ◌+◌, ◌||◌, ◌∙◌,
  ◌≡◌,
}
use rfp.Promotion.{PromotionEnv, copied, copy_source, is_promotable, is_promoting, promote_document}
use rfp.Promotion.Landing.{Landed, QuietParse, copy_code, copy_verdict}
use rfp.Promotion.Task.{
  enqueue_failed_rows, env_for, fail_promoting, handle_promotion_enqueue_failure,
  is_pending_promotion, promote_document_task, promote_row, promotion_enqueue_failed,
  promotion_queue_failed, queue_failed_change, swallow_promotion_error,
}
use rfp.Promotion.Verdict.{promote_document-Landed}

-- The document waits for an operator: its failure is committed with the reason.
pub record QueueFailed (doc : Document) (project : ProposalProject) (db : Db) : Type 0 where
  pub row : Document
  pub committed_row : db.committed.document ≡ some row
  pub working_row : db.working.document ≡ some row
  pub committed_project : db.committed.project ≡ some project
  pub settled : db.working ≡ db.committed
  pub exit : row.ingestion_status ≡ promotion_failed
  pub reason : row.rejection_reason_code ≡ some promotion_queue_failed
  pub same_attempts : row.promotion_attempt_count ≡ doc.promotion_attempt_count
  pub same_digest : row.sha256_digest ≡ doc.sha256_digest
  pub same_size : row.file_size_bytes ≡ doc.file_size_bytes

promoting_fails : (s : Status) → s ≡ promoting → is_allowed s promotion_failed ≡ true
unfolding is_allowed
promoting_fails s e = ground (arith, e)

fail_promoting-QueueFailed :
    (doc now : Document) (project : ProposalProject) (db : Db)
    → now.ingestion_status ≡ promoting
    → now.promotion_attempt_count ≡ doc.promotion_attempt_count
    → now.sha256_digest ≡ doc.sha256_digest
    → now.file_size_bytes ≡ doc.file_size_bytes
    → db.working.project ≡ some project
    → QueueFailed doc project (rollback (fail_promoting project (returned now, db)))
unfolding fail_promoting moved queue_failed_change
fail_promoting-QueueFailed doc now project db e attempts digest size owner =
    let change =
      queue_failed_change now project
        (some "Clean storage promotion failed to queue. An operator will review the document.") in
    subst (λ (r : Outcome Document × Db). QueueFailed doc project (rollback r.1))
      (sym (
        transition_allowed now promotion_failed change db (promoting_fails now.ingestion_status e)))
      (record {
        row = moved now promotion_failed change;
        committed_row = refl;
        working_row = refl;
        committed_project = owner;
        settled = refl;
        exit = refl;
        reason = refl;
        same_attempts = attempts;
        same_digest = digest;
        same_size = size;
      })

pending_moves : (s : Status) → is_pending_promotion s ≡ true → is_allowed s promoting ≡ true
unfolding is_allowed
pending_moves s e = ground (arith, e)

is_promoting-inv : (s : Status) → is_promoting s ≡ true → s ≡ promoting
is_promoting-inv s e = ground (arith, e)

module _ (doc : Document) (project : ProposalProject) (opened : Db)
    (owner : opened.working.project ≡ some project) where
  from_pending :
      is_pending_promotion doc.ingestion_status ≡ true
      → QueueFailed doc project (
          rollback (
            fail_promoting project
              (transition doc promoting (queue_failed_change doc project none) opened)))
  unfolding moved queue_failed_change
  from_pending e =
      let change = queue_failed_change doc project none in
      subst
        (λ (r : Outcome Document × Db).
          QueueFailed doc project (rollback (fail_promoting project r)))
        (sym
          (transition_allowed doc promoting change opened (pending_moves doc.ingestion_status e)))
        (fail_promoting-QueueFailed doc (moved doc promoting change) project
          (after_move doc promoting change opened) refl refl refl refl owner)

  enqueue_failed-QueueFailed :
      (is_pending_promotion doc.ingestion_status || is_promoting doc.ingestion_status) ≡ true
      → QueueFailed doc project (rollback (promotion_enqueue_failed doc project opened))
  unfolding promotion_enqueue_failed
  enqueue_failed-QueueFailed e =
      if_both (λ (db : Db). QueueFailed doc project (rollback db))
        (is_pending_promotion doc.ingestion_status) _ _ (λ p. from_pending p)
        (λ n.
          if_both (λ (db : Db). QueueFailed doc project (rollback db))
            (is_promoting doc.ingestion_status) _ _
            (λ p.
              fail_promoting-QueueFailed doc doc project opened
                (is_promoting-inv doc.ingestion_status p) refl refl refl owner)
            (λ q. absurd (ground (arith, e, n, q))))

handle-QueueFailed :
    (db : Db) (doc : Document) (project : ProposalProject)
    → db.committed.document ≡ some doc
    → db.committed.project ≡ some project
    → (is_pending_promotion doc.ingestion_status || is_promoting doc.ingestion_status) ≡ true
    → QueueFailed doc project (handle_promotion_enqueue_failure db)
unfolding handle_promotion_enqueue_failure enqueue_failed_rows
handle-QueueFailed db doc project at owner e =
    subst
      (λ (o : Option Document).
        QueueFailed doc project
          (rollback (enqueue_failed_rows o db.committed.project (rollback db))))
      (sym at)
      (subst
        (λ (o : Option ProposalProject).
          QueueFailed doc project (rollback (enqueue_failed_rows (some doc) o (rollback db))))
        (sym owner) (enqueue_failed-QueueFailed doc project (rollback db) owner e))

swallowed-Landed :
    (n : ℕ) (t : Status) (code : String) (r : Outcome Document × Db)
    → Landed n t code r.1
    → Landed n t code (swallow_promotion_error r).1
unfolding swallow_promotion_error
swallowed-Landed n t code (r, db) h = record {
  row = h.row;
  committed_row = h.committed_row;
  working_row = h.committed_row;
  exit = h.exit;
  counted = h.counted;
  recorded = h.recorded;
}

promotable_failed : (s : Status) → s ≡ promotion_failed → is_promotable s ≡ true
unfolding is_promotable
promotable_failed s e = ground (arith, e)

-- The job runs on a document whose promotion could not be queued.
task-Landed :
    (env : PromotionEnv) (db : Db) (doc : Document) (project : ProposalProject) (digest : String)
    (size : ℕ)
    → QuietParse env
    → env.clean_root ≡ returned tt
    → QueueFailed doc project db
    → doc.sha256_digest ≡ some digest
    → str_eq digest "" ≡ false
    → doc.file_size_bytes ≡ some size
    → Landed
        (doc.promotion_attempt_count + 1)
        (copy_verdict (copy_source env digest size))
        (copy_code (copy_source env digest size))
        (promote_document_task env db).1
unfolding promote_document_task promote_row copy_source copied
task-Landed env db doc project digest size quiet root q d nonempty s =
    subst
      (λ (o : Option Document).
        Landed (doc.promotion_attempt_count + 1) (copy_verdict (copy_source env digest size))
          (copy_code (copy_source env digest size))
          (promote_row env o db.committed.project (rollback db)).1)
      (sym q.committed_row)
      (subst
        (λ (o : Option ProposalProject).
          Landed (doc.promotion_attempt_count + 1) (copy_verdict (copy_source env digest size))
            (copy_code (copy_source env digest size))
            (promote_row env (some q.row) o (rollback db)).1)
        (sym q.committed_project)
        (swallowed-Landed (doc.promotion_attempt_count + 1)
          (copy_verdict (copy_source env digest size)) (copy_code (copy_source env digest size))
          (promote_document (env_for env q.row project) (rollback db))
          (subst
            (λ (n : ℕ).
              Landed n (copy_verdict (copy_source env digest size))
                (copy_code (copy_source env digest size))
                (promote_document (env_for env q.row project) (rollback db)).1)
            (ap (λ (n : ℕ). n + 1) q.same_attempts)
            (promote_document-Landed (env_for env q.row project) (rollback db) q.row project digest
              size (record { same_rows = quiet.same_rows }) root q.committed_row q.committed_project
              refl (promotable_failed q.row.ingestion_status q.exit) (q.same_digest ∙ d) nonempty
              (q.same_size ∙ s)))))

-- A promotion that could not be queued is not lost: the document is committed as PROMOTION_FAILED with
-- the reason, and when a promotion job for it runs later, it ends as a promotion does: CLEAN if the
-- staged copy ends well, else PROMOTION_FAILED with the code of the copy, with the attempt counted.
-- Assumed are its project, its digest and its size, a clean root, and a quiet parse queue.
pub enqueue_failure_recovers :
    (env : PromotionEnv) (db : Db) (doc : Document) (project : ProposalProject) (digest : String)
    (size : ℕ)
    → QuietParse env
    → env.clean_root ≡ returned tt
    → db.committed.document ≡ some doc
    → db.committed.project ≡ some project
    → (is_pending_promotion doc.ingestion_status || is_promoting doc.ingestion_status) ≡ true
    → doc.sha256_digest ≡ some digest
    → str_eq digest "" ≡ false
    → doc.file_size_bytes ≡ some size
    → QueueFailed doc project (handle_promotion_enqueue_failure db)
      × Landed
          (doc.promotion_attempt_count + 1)
          (copy_verdict (copy_source env digest size))
          (copy_code (copy_source env digest size))
          (promote_document_task env (handle_promotion_enqueue_failure db)).1
enqueue_failure_recovers env db doc project digest size quiet root at owner e d nonempty s =
    let q = handle-QueueFailed db doc project at owner e in
    (
      q,
      task-Landed env (handle_promotion_enqueue_failure db) doc project digest size quiet root q d
          nonempty s,
    )
