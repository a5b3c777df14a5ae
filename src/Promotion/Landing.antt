-- ===== src/Promotion/Landing.antt =====
-- The end of a promotion attempt, and what does not undo it.
use mathlib.Core.Path.{subst}
use rfp.Database.{
  Db, Document, Outcome, Status, clean, clean_pending_promotion, promoting, promotion_failed,
  raised, returned,
}
use rfp.Ingestion.{is_allowed}
use rfp.Prelude.{List, Option, String, arith, if_both, inl, inr, refl, some, sym, true, ℕ, ◌≡◌, ◌⊎◌}
use rfp.Promotion.{
  PromotionEnv, after_clean, after_enqueue, failure_code, is_promotable, is_promoting, mark_cleanup,
}

-- The queue call leaves the tables alone, whether or not it raises.
pub record QuietParse (env : PromotionEnv) : Type 0 where
  pub same_rows :
      (n : ℕ) (db : Db)
      → ((env.enqueue_parse n db).1.committed ≡ db.committed)
        × ((env.enqueue_parse n db).1.working ≡ db.working)

-- The attempt numbered `n` is over: its status `t` is committed, with the reason of a failure.
pub record Landed (n : ℕ) (t : Status) (code : String) (db : Db) : Type 0 where
  pub row : Document
  pub committed_row : db.committed.document ≡ some row
  pub working_row : db.working.document ≡ some row
  pub exit : row.ingestion_status ≡ t
  pub counted : row.promotion_attempt_count ≡ n
  pub recorded : t ≡ promotion_failed → row.rejection_reason_code ≡ some code

-- The status that the result of the staged copy calls for, and the reason of a failure.
abbrev pub copy_verdict : Outcome (List ℕ) → Status
copy_verdict (returned bytes) = clean
copy_verdict (raised e) = promotion_failed

abbrev pub copy_code : Outcome (List ℕ) → String
copy_code (returned bytes) = ""
copy_code (raised e) = failure_code e

pub leaves_promoting :
    (s : Status)
    → s ≡ promoting
    → (is_allowed s clean ≡ true) × (is_allowed s promotion_failed ≡ true)
unfolding is_allowed
leaves_promoting s e = ground arith

pub enters_promoting :
    (s : Status) → is_promotable s ≡ true → (s ≡ promoting) ⊎ (is_allowed s promoting ≡ true)
unfolding is_allowed is_promotable
enters_promoting clean_pending_promotion e = inr refl
enters_promoting promoting e = inl refl
enters_promoting promotion_failed e = inr refl
enters_promoting _ e = absurd (ground (arith, e))

pub is_promoting-true : (s : Status) → s ≡ promoting → is_promoting s ≡ true
is_promoting-true s e = ground (arith, e)

pub not_failed : (A : Type 0) → clean ≡ promotion_failed → A
not_failed A e = absurd (ground (arith, e))

module _ (env : PromotionEnv) (quiet : QuietParse env) (n : ℕ) (t : Status) (code : String) where
  Landed-enqueue :
      (k : ℕ) (db : Db) → Landed n t code db → Landed n t code (env.enqueue_parse k db).1
  Landed-enqueue k db h = record {
    row = h.row;
    committed_row = rw (quiet.same_rows k db).0 h.committed_row;
    working_row = rw (quiet.same_rows k db).1 h.working_row;
    exit = h.exit;
    counted = h.counted;
    recorded = h.recorded;
  }

  mark_cleanup-Landed :
      (db : Db) → Landed n t code db → Landed n t code (mark_cleanup db.working.document db).1
  unfolding mark_cleanup
  mark_cleanup-Landed db h =
      subst (λ (o : Option Document). Landed n t code (mark_cleanup o db).1) (sym h.working_row)
        (record {
          row = record h.row { cleanup_pending = true };
          committed_row = refl;
          working_row = refl;
          exit = h.exit;
          counted = h.counted;
          recorded = h.recorded;
        })

  after_enqueue-Landed :
      (doc : Document) (r : Outcome (Unit {0}) × Db)
      → Landed n t code r.1
      → Landed n t code (after_enqueue env doc r).1
  unfolding after_enqueue
  after_enqueue-Landed doc (raised e, db) h = h
  after_enqueue-Landed doc (returned u, db) h =
      if_both (λ (r : Outcome Document × Db). Landed n t code r.1) env.unlinks _ _ (λ _. h)
        (λ _. mark_cleanup-Landed db h)

  pub after_clean-Landed :
      (r : Outcome Document × Db) → Landed n t code r.1 → Landed n t code (after_clean env r).1
  unfolding after_clean
  after_clean-Landed (raised e, db) h = h
  after_clean-Landed (returned doc, db) h =
      after_enqueue-Landed doc (env.enqueue_parse doc.id db) (Landed-enqueue doc.id db h)
