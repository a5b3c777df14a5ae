-- ===== src/Scan/Bound.antt =====
-- The bound on scan attempts that app/services/malware_scan.py documents, and what a worker that dies
-- does to it.
use mathlib.Core.Path.{subst}
use rfp.Database.{
  Db, Document, Outcome, ProposalProject, Status, Status-discrete, raised, returned, rollback,
  scan_failed, scanning,
}
use rfp.Ingestion.{Change, is_allowed, moved, plain, transition}
use rfp.Ingestion.Step.{after_move, transition_allowed}
use rfp.Prelude.{
  Bool, Bool-cases, List, Option, [], arith, false, if_both, if_neg, if_pos, inl, inr, ite_both,
  leb, ltb, none, refl, some, sym, true, ℕ, ◌&&◌, ◌+◌, ◌<◌, ◌∙◌, ◌∷◌, ◌≡◌, ◌≢◌, ◌≤◌,
}
use rfp.Scan.{begun, is_scanning, run_scan, scan_row}
use rfp.Scan.Attempt.{Ended, QueueOnly}
use rfp.Scan.Result.{exit_not_scanning, run_scan-verdict, run_scan_idle}
use rfp.Scan.Task.{
  ScanCall, after_prepare, after_scan, crash_after, crashed, crashed_row, crashed_task, delivered,
  enqueue_failed, enqueue_failed_row, handle_scan_enqueue_failure, prepare_scan_attempt, prepared,
  rearmed, retry_if_left, scan_call, scan_calls, scan_document_task,
}
use rfp.Scan.Verdict.{verdict}
use rfp.Scan.World.{ScanEnv}

abbrev pub BoundedRow : ℕ → Option Document → Type 0
BoundedRow max_attempts none = Unit
BoundedRow max_attempts (some doc) =
    (doc.scan_attempt_count ≤ max_attempts)
    × (doc.ingestion_status ≡ scanning → doc.scan_attempt_count < max_attempts)

-- The committed row is within the bound, and nothing is pending for it.
pub record IsBounded (max_attempts : ℕ) (db : Db) : Type 0 where
  pub row : Option Document
  pub committed_row : db.committed.document ≡ row
  pub working_row : db.working.document ≡ row
  pub bounded : BoundedRow max_attempts row

-- The workers share one setting, and their queue calls leave the tables alone.
pub record IsWorker (max_attempts : ℕ) (env : ScanEnv) : Type 0 where
  pub setting : env.scan_max_attempts ≤ max_attempts
  pub quiet : QueueOnly env

abbrev pub AreWorkers : ℕ → List ScanCall → Type 0
AreWorkers m [] = Unit
AreWorkers m (delivered env up ∷ cs) = IsWorker m env × AreWorkers m cs
AreWorkers m (enqueue_failed env up ∷ cs) = IsWorker m env × AreWorkers m cs
AreWorkers m (crashed env ∷ cs) = IsWorker m env × AreWorkers m cs

-- How many workers die.
abbrev pub crashes : List ScanCall → ℕ
crashes [] = 0
crashes (delivered env up ∷ cs) = crashes cs
crashes (enqueue_failed env up ∷ cs) = crashes cs
crashes (crashed env ∷ cs) = crashes cs + 1

rearm_allowed : (s : Status) → s ≡ scan_failed → is_allowed s scanning ≡ true
unfolding is_allowed
rearm_allowed s e = ground arith

fail_allowed : (s : Status) → s ≡ scanning → is_allowed s scan_failed ≡ true
unfolding is_allowed
fail_allowed s e = ground arith

failed_not_scanning : scan_failed ≢ scanning
failed_not_scanning e = ground arith

below : (a c m : ℕ) → a ≤ m → leb a c ≡ false → c < m
below a c m e h = ground arith

module _ (m : ℕ) where
  IsBounded-rollback : (db : Db) → IsBounded m db → IsBounded m (rollback db)
  IsBounded-rollback db h = record {
    row = h.row;
    committed_row = h.committed_row;
    working_row = h.committed_row;
    bounded = h.bounded;
  }

  widened : (db : Db) → IsBounded m db → IsBounded (m + 1) db
  widened db h = record {
    row = h.row;
    committed_row = h.committed_row;
    working_row = h.working_row;
    bounded = wider h.row h.bounded;
  }
    where
      wider : (o : Option Document) → BoundedRow m o → BoundedRow (m + 1) o
      wider none b = tt
      wider (some doc) b = (omega (arith, b.0), λ p. omega (arith, b.1 p))

  IsBounded-after_move :
      (doc : Document) (t : Status) (change : Change) (db : Db)
      → doc.scan_attempt_count ≤ m
      → (t ≡ scanning → doc.scan_attempt_count < m)
      → IsBounded m (after_move doc t change db)
  unfolding moved
  IsBounded-after_move doc t change db h k = record {
    row = some (moved doc t change);
    committed_row = refl;
    working_row = refl;
    bounded = (h, k);
  }

  Ended-IsBounded :
      (n : ℕ) (t : Status) (db : Db) → n ≤ m → t ≢ scanning → Ended n t db → IsBounded m db
  Ended-IsBounded n t db h x e = record {
    row = some e.row;
    committed_row = e.committed_row;
    working_row = e.working_row;
    bounded = (rw e.counted h, λ q. absurd (x (sym e.exit ∙ q)));
  }

  retry_if_left-IsBounded :
      (env : ScanEnv) (up : Bool) (o : Option Document) (db : Db)
      → IsBounded m db
      → IsBounded m (retry_if_left env up o db)
  unfolding retry_if_left
  retry_if_left-IsBounded env up none db h = h
  retry_if_left-IsBounded env up (some doc) db h =
      elim (Status-discrete doc.ingestion_status scan_failed) [
        | yes p ↦
            rw (if_pos _ p)
              (elim (Bool-cases (ltb doc.scan_attempt_count env.scan_max_attempts && up)) [
                | inl q ↦ rw q (record {
                  row = h.row;
                  committed_row = h.committed_row;
                  working_row = h.working_row;
                  bounded = h.bounded;
                })
                | inr q ↦ rw q h
              ])
        | no p ↦ rw (if_neg _ p) h
      ]

  prepared-IsBounded :
      (env : ScanEnv) (o : Option Document) (project : Option ProposalProject) (db : Db)
      → env.scan_max_attempts ≤ m
      → db.committed.document ≡ o
      → IsBounded m db
      → BoundedRow m o
      → IsBounded m (prepared env o project db).1
  unfolding prepared rearmed
  prepared-IsBounded env none project db s d h b = h
  prepared-IsBounded env (some doc) none db s d h b = h
  prepared-IsBounded env (some doc) (some project) db s d h b =
      ite_both (λ (r : Outcome (Option ℕ) × Db). IsBounded m r.1)
        (Status-discrete doc.ingestion_status scan_failed) _ _
        (λ p.
          if_both (λ (r : Outcome (Option ℕ) × Db). IsBounded m r.1)
            (leb env.scan_max_attempts doc.scan_attempt_count) _ _ (λ q. h)
            (λ q.
              rw
                (transition_allowed doc scanning
                  (plain project.organization_id (some doc.created_by_id)) db
                  (rearm_allowed doc.ingestion_status p))
                (IsBounded-after_move doc scanning _ db b.0
                  (λ _. below env.scan_max_attempts doc.scan_attempt_count m s q))))
        (λ p. h)

  run_scan-IsBounded :
      (env : ScanEnv) (org_id : ℕ) (o : Option Document) (db : Db)
      → QueueOnly env
      → db.working.document ≡ o
      → IsBounded m db
      → BoundedRow m o
      → IsBounded m (run_scan env org_id db).1
  unfolding run_scan scan_row
  run_scan-IsBounded env org_id none db quiet d h b =
      subst (λ o. IsBounded m (scan_row env org_id o db).1) (sym d) h
  run_scan-IsBounded env org_id (some doc) db quiet d h b =
      elim (Status-discrete doc.ingestion_status scanning) [
        | yes p ↦
            let (e, x) = run_scan-verdict env org_id doc db quiet d p in
            Ended-IsBounded (doc.scan_attempt_count + 1) (verdict env doc) _ (omega (arith, b.1 p))
              (exit_not_scanning (verdict env doc) x) e
        | no p ↦ rw (run_scan_idle env org_id doc db d p) h
      ]

  after_scan-IsBounded :
      (env : ScanEnv) (up : Bool) (r : Outcome (Unit {0}) × Db)
      → IsBounded m r.1
      → IsBounded m (after_scan env up r).1
  unfolding after_scan
  after_scan-IsBounded env up (raised e, db) h = IsBounded-rollback db h
  after_scan-IsBounded env up (returned done, db) h =
      IsBounded-rollback _ (retry_if_left-IsBounded env up db.working.document db h)

  after_prepare-IsBounded :
      (env : ScanEnv) (up : Bool) (o : Outcome (Option ℕ)) (db : Db)
      → QueueOnly env
      → IsBounded m db
      → IsBounded m (after_prepare env up (o, db)).1
  unfolding after_prepare
  after_prepare-IsBounded env up (raised e) db quiet h = IsBounded-rollback db h
  after_prepare-IsBounded env up (returned none) db quiet h = IsBounded-rollback db h
  after_prepare-IsBounded env up (returned (some org_id)) db quiet h =
      after_scan-IsBounded env up (run_scan env org_id db)
        (run_scan-IsBounded env org_id h.row db quiet h.working_row h h.bounded)

  failed_row-IsBounded :
      (doc : Document) (change : Change) (db : Db)
      → is_allowed doc.ingestion_status scan_failed ≡ true
      → doc.scan_attempt_count ≤ m
      → IsBounded m (transition doc scan_failed change db).1
  failed_row-IsBounded doc change db a h =
      rw (transition_allowed doc scan_failed change db a)
        (IsBounded-after_move doc scan_failed change db h (λ q. absurd (failed_not_scanning q)))

  enqueue_failed-IsBounded :
      (env : ScanEnv) (up : Bool) (o : Option Document) (project : Option ProposalProject) (db : Db)
      → BoundedRow m o
      → IsBounded m db
      → IsBounded m (enqueue_failed_row env up o project db)
  unfolding enqueue_failed_row
  enqueue_failed-IsBounded env up none project db b h = h
  enqueue_failed-IsBounded env up (some doc) none db b h = h
  enqueue_failed-IsBounded env up (some doc) (some project) db b h =
      ite_both (λ (r : Db). IsBounded m r) (Status-discrete doc.ingestion_status scanning) _ _
        (λ p. retry_if_left-IsBounded env up _ _ (
          failed_row-IsBounded _ _ db (fail_allowed doc.ingestion_status p) (omega (arith, b.1 p))))
        (λ p. h)

  scan_call-IsBounded :
      (c : ScanCall) (db : Db)
      → crashes (c ∷ []) ≡ 0
      → AreWorkers m (c ∷ [])
      → IsBounded m db
      → IsBounded m (scan_call db c)
  unfolding scan_call scan_document_task handle_scan_enqueue_failure prepare_scan_attempt
  scan_call-IsBounded (delivered env up) db n w h =
      let k = IsBounded-rollback db h in
      after_prepare-IsBounded env up
        (prepared env db.committed.document db.committed.project (rollback db)).0 _ w.0.quiet
        (prepared-IsBounded env db.committed.document db.committed.project (rollback db) w.0.setting
          refl k (rw h.committed_row h.bounded))
  scan_call-IsBounded (crashed env) db n w h = absurd (ground (arith, n))
  scan_call-IsBounded (enqueue_failed env up) db n w h =
      let k = IsBounded-rollback db h in
      IsBounded-rollback _ (
        enqueue_failed-IsBounded env up db.committed.document db.committed.project (rollback db)
          (rw h.committed_row h.bounded) k)

  -- A crash costs at most one attempt over the bound.
  crashed_row-IsBounded :
      (env : ScanEnv) (o : Option Document) (db : Db)
      → db.working.document ≡ o
      → IsBounded m db
      → IsBounded (m + 1) (crashed_row env o db)
  unfolding crashed_row begun
  crashed_row-IsBounded env none db d h = widened (rollback db) (IsBounded-rollback db h)
  crashed_row-IsBounded env (some doc) db d h =
      let b = subst (BoundedRow m) (sym h.working_row ∙ d) h.bounded in
      if_both (IsBounded (m + 1)) (is_scanning doc) _ _
        (λ e. record {
          row = some (begun env doc);
          committed_row = refl;
          working_row = refl;
          bounded = (omega (arith, b.0), λ p. omega (arith, b.1 p));
        })
        (λ _. widened (rollback db) (IsBounded-rollback db h))

  crash_after-IsBounded :
      (env : ScanEnv) (r : Outcome (Option ℕ) × Db)
      → IsBounded m r.1
      → IsBounded (m + 1) (crash_after env r)
  unfolding crash_after
  crash_after-IsBounded env (returned (some org_id), db) h =
      crashed_row-IsBounded env db.working.document db refl h
  crash_after-IsBounded env (returned none, db) h = widened (rollback db) (IsBounded-rollback db h)
  crash_after-IsBounded env (raised e, db) h = widened (rollback db) (IsBounded-rollback db h)

  crashed_task-IsBounded :
      (env : ScanEnv) (db : Db)
      → IsWorker m env
      → IsBounded m db
      → IsBounded (m + 1) (crashed_task env db)
  unfolding crashed_task prepare_scan_attempt
  crashed_task-IsBounded env db w h = crash_after-IsBounded env _ (
      prepared-IsBounded env db.committed.document db.committed.project (rollback db) w.setting refl
        (IsBounded-rollback db h) (rw h.committed_row h.bounded))

  more_crashes : (db : Db) (n : ℕ) → IsBounded (m + 1 + n) db → IsBounded (m + (n + 1)) db
  more_crashes db n h =
      let e : m + 1 + n ≡ m + (n + 1) = omega arith in subst (λ (k : ℕ). IsBounded k db) e h

AreWorkers-widened : (m : ℕ) (cs : List ScanCall) → AreWorkers m cs → AreWorkers (m + 1) cs
AreWorkers-widened m [] w = tt
AreWorkers-widened m (delivered env up ∷ cs) w = (
  record { setting = omega (arith, w.0.setting); quiet = w.0.quiet },
  AreWorkers-widened m cs w.1,
)
AreWorkers-widened m (enqueue_failed env up ∷ cs) w = (
  record { setting = omega (arith, w.0.setting); quiet = w.0.quiet },
  AreWorkers-widened m cs w.1,
)
AreWorkers-widened m (crashed env ∷ cs) w = (
  record { setting = omega (arith, w.0.setting); quiet = w.0.quiet },
  AreWorkers-widened m cs w.1,
)

-- Whatever the order of deliveries, redeliveries, failed enqueues and workers that die after they have
-- counted an attempt, and whatever each attempt meets, the attempts of a document that starts within
-- the bound exceed the setting at most by the number of workers that died; and one that is SCANNING
-- has an attempt left below that bound. The workers share the setting, or have a lower one, and their
-- queue calls leave the tables alone.
pub scan_calls-IsBounded :
    (m : ℕ) (db : Db) (cs : List ScanCall)
    → AreWorkers m cs
    → IsBounded m db
    → IsBounded (m + crashes cs) (scan_calls db cs)
unfolding scan_calls scan_call
scan_calls-IsBounded m db [] w h =
    let e : m ≡ m + 0 = omega arith in subst (λ (k : ℕ). IsBounded k db) e h
scan_calls-IsBounded m db (delivered env up ∷ cs) w h =
    scan_calls-IsBounded m (scan_call db (delivered env up)) cs w.1
      (scan_call-IsBounded m (delivered env up) db refl (w.0, tt) h)
scan_calls-IsBounded m db (enqueue_failed env up ∷ cs) w h =
    scan_calls-IsBounded m (scan_call db (enqueue_failed env up)) cs w.1
      (scan_call-IsBounded m (enqueue_failed env up) db refl (w.0, tt) h)
scan_calls-IsBounded m db (crashed env ∷ cs) w h = more_crashes m _ (crashes cs) (
    scan_calls-IsBounded (m + 1) (scan_call db (crashed env)) cs (AreWorkers-widened m cs w.1)
      (crashed_task-IsBounded m env db w.0 h))
