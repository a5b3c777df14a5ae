-- ===== src/Promotion/Verdict.antt =====
-- Where a promotion ends, whatever the file system does.
use mathlib.Core.Path.{subst}
use rfp.Database.{
  Db, Document, Error, Outcome, ProposalProject, Status, clean, promoting, promotion_error,
  promotion_failed, raised, returned, save,
}
use rfp.Ingestion.{moved}
use rfp.Ingestion.Step.{after_move, transition_allowed, transition_same}
use rfp.Prelude.{
  List, Option, String, false, inl, inr, refl, same_number, some, str_eq, sym, true, ℕ, ◌+◌, ◌≡◌,
}
use rfp.Promotion.{
  PromotionEnv, after_copy, claim_change, claimed, claimed_row, clean_change, complete,
  completed_row, copy_source, failure_change, failure_code, is_promotable, promote_document,
  promoted_row, record_failure, then_raise, with_file, with_project, with_root,
}
use rfp.Promotion.Landing.{
  Landed, QuietParse, after_clean-Landed, copy_code, copy_verdict, enters_promoting,
  is_promoting-true, leaves_promoting, not_failed,
}

then_raise-Landed :
    (n : ℕ) (t : Status) (code : String) (e : Error) (r : Outcome Document × Db)
    → Landed n t code r.1
    → Landed n t code (then_raise e r).1
unfolding then_raise
then_raise-Landed n t code e (returned doc, db) h = h
then_raise-Landed n t code e (raised err, db) h = h

module _ (env : PromotionEnv) (quiet : QuietParse env) where
  complete-Landed :
      (identifier code : String) (row : Document) (db : Db)
      → row.ingestion_status ≡ promoting
      → Landed row.promotion_attempt_count clean code (complete env identifier (some row) db).1
  unfolding complete completed_row moved
  complete-Landed identifier code row db e =
      rw
        (
          is_promoting-true row.ingestion_status e,
          transition_allowed (completed_row env identifier row) clean (clean_change env identifier)
              db (leaves_promoting row.ingestion_status e).0,
        )
        (after_clean-Landed env quiet row.promotion_attempt_count clean code
          (
            returned (moved (completed_row env identifier row) clean (clean_change env identifier)),
            after_move (completed_row env identifier row) clean (clean_change env identifier) db,
          )
          (record {
            row = moved (completed_row env identifier row) clean (clean_change env identifier);
            committed_row = refl;
            working_row = refl;
            exit = refl;
            counted = refl;
            recorded = λ f. not_failed _ f;
          }))

  record_failure-Landed :
      (code : String) (row : Document) (db : Db)
      → row.ingestion_status ≡ promoting
      → Landed row.promotion_attempt_count promotion_failed code
          (record_failure env code (some row) db).1
  unfolding record_failure failure_change moved
  record_failure-Landed code row db e =
      rw
        (
          is_promoting-true row.ingestion_status e,
          transition_allowed row promotion_failed (failure_change env code) db
              (leaves_promoting row.ingestion_status e).1,
        )
        (then_raise-Landed row.promotion_attempt_count promotion_failed code (promotion_error code)
          (
            returned (moved row promotion_failed (failure_change env code)),
            after_move row promotion_failed (failure_change env code) db,
          )
          (record {
            row = moved row promotion_failed (failure_change env code);
            committed_row = refl;
            working_row = refl;
            exit = refl;
            counted = refl;
            recorded = λ f. refl;
          }))

  after_copy-Landed :
      (identifier : String) (o : Outcome (List ℕ)) (row : Document) (db : Db)
      → db.working.document ≡ some row
      → row.ingestion_status ≡ promoting
      → Landed row.promotion_attempt_count
          (copy_verdict o)
          (copy_code o)
          (after_copy env identifier o db).1
  unfolding after_copy
  after_copy-Landed identifier (raised e) row db at s =
      subst
        (λ (d : Option Document).
          Landed row.promotion_attempt_count promotion_failed (failure_code e)
            (record_failure env (failure_code e) d db).1)
        (sym at) (record_failure-Landed (failure_code e) row db s)
  after_copy-Landed identifier (returned bytes) row db at s =
      subst
        (λ (d : Option Document).
          Landed row.promotion_attempt_count clean "" (complete env identifier d db).1)
        (sym at) (complete-Landed identifier "" row db s)

  module _ (root : env.clean_root ≡ returned tt) (digest : String) (size : ℕ) where
    abbrev Lands : ℕ → Outcome Document × Db → Type 0
    Lands n r =
        Landed n (copy_verdict (copy_source env digest size))
          (copy_code (copy_source env digest size)) r.1

    with_root-Lands :
        (doc row : Document) (db : Db)
        → db.working.document ≡ some row
        → row.ingestion_status ≡ promoting
        → Lands row.promotion_attempt_count (with_root env digest size doc env.clean_root db)
    unfolding with_root
    with_root-Lands doc row db at s =
        subst
          (λ (o : Outcome {0} Unit).
            Lands row.promotion_attempt_count (with_root env digest size doc o db))
          (sym root) (after_copy-Landed _ (copy_source env digest size) row db at s)

    claimed-Lands :
        (doc : Document) (db : Db)
        → is_promotable doc.ingestion_status ≡ true
        → Lands (doc.promotion_attempt_count + 1) (claimed env digest size doc db)
    unfolding claimed claimed_row moved
    claimed-Lands doc db p =
        let doc1 = claimed_row env doc in
        let change = claim_change env doc digest in
        elim (enters_promoting doc.ingestion_status p) [
          | inl e ↦
              rw (transition_same doc1 promoting change db e)
                (with_root-Lands doc1 doc1 (save doc1 db) refl e)
          | inr a ↦ rw (transition_allowed doc1 promoting change db a) (
              with_root-Lands (moved doc1 promoting change) (moved doc1 promoting change)
                (after_move doc1 promoting change db) refl refl)
        ]

    with_file-Lands :
        (doc : Document) (db : Db) (d : Option String) (s : Option ℕ)
        → is_promotable doc.ingestion_status ≡ true
        → d ≡ some digest
        → str_eq digest "" ≡ false
        → s ≡ some size
        → Lands (doc.promotion_attempt_count + 1) (with_file env doc d s db)
    unfolding with_file
    with_file-Lands doc db d s p at nonempty sized =
        rw (at, sized, nonempty) (claimed-Lands doc db p)

-- A promotion of a document that waits for one, was interrupted or failed, in its organization and
-- with a recorded digest and size, never leaves it in between: it commits CLEAN if the staged copy
-- ends well and PROMOTION_FAILED with the reason code if it does not, whatever the file system or
-- the queue does, and counts the attempt, provided that the clean root can be opened and the parse
-- queue call leaves the tables alone.
pub promote_document-Landed :
    (env : PromotionEnv) (db : Db) (doc : Document) (project : ProposalProject) (digest : String)
    (size : ℕ)
    → QuietParse env
    → env.clean_root ≡ returned tt
    → db.working.document ≡ some doc
    → db.working.project ≡ some project
    → project.organization_id ≡ env.org_id
    → is_promotable doc.ingestion_status ≡ true
    → doc.sha256_digest ≡ some digest
    → str_eq digest "" ≡ false
    → doc.file_size_bytes ≡ some size
    → Landed
        (doc.promotion_attempt_count + 1)
        (copy_verdict (copy_source env digest size))
        (copy_code (copy_source env digest size))
        (promote_document env db).1
unfolding promote_document promoted_row with_project
promote_document-Landed env db doc project digest size quiet root at owner owned p d nonempty s =
    subst
      (λ (o : Option Document).
        Lands env quiet root digest size (doc.promotion_attempt_count + 1) (promoted_row env o db))
      (sym at)
      (subst
        (λ (o : Option ProposalProject).
          Lands env quiet root digest size (doc.promotion_attempt_count + 1)
            (with_project env doc o db))
        (sym owner)
        (rw (same_number owned, p)
          (with_file-Lands env quiet root digest size doc db doc.sha256_digest doc.file_size_bytes p
            d nonempty s)))
