-- ===== src/Extraction/Persist/RunEnds.antt =====
-- What the phase that writes leaves of its run (app/services/candidate_extraction.py).
use rfp.Database.{Document, DocumentPage, Outcome, extraction_service_error, raised, returned}
use rfp.Extraction.{Build, CandidateUnit, RunScope, build, no_rows}
use rfp.Extraction.Persist.{
  all_hashes_match, complete_run, fail_run, fail_with, is_completed, is_running, mark_run_failed,
  over_document, over_pages, over_run, persist_candidates, supersede_stale_candidates, write_built,
  write_rows,
}
use rfp.Extraction.Persist.Atomic.{update_with-All}
use rfp.Extraction.Store.{Store, compute_snapshot_sha256, first_with}
use rfp.Extraction.World.{ExtractionRun, RunStatus, run_completed, run_failed, running}
use rfp.Prelude.{
  All, List, Option, String, arith, if_both, length, none, not, refl, some, str_eq, true, ℕ, ◌==◌,
  ◌≡◌,
}

-- The runs with this identifier have failed with the code, or are complete.
abbrev pub AllFailed : ℕ → String → List ExtractionRun → Type 0
AllFailed run_id code runs =
    All
      (λ (r : ExtractionRun).
        (r.id == run_id) ≡ true → (r.status ≡ run_failed) × (r.failure_code ≡ some code))
      runs

abbrev pub AllCompleted : ℕ → List ExtractionRun → Type 0
AllCompleted run_id runs =
    All (λ (r : ExtractionRun). (r.id == run_id) ≡ true → r.status ≡ run_completed) runs

pub mark-AllFailed :
    (run_id : ℕ) (code : String) (now : ℕ) (s : Store)
    → AllFailed run_id code (mark_run_failed run_id code now s).committed.runs
unfolding mark_run_failed fail_run
mark-AllFailed run_id code now s =
    update_with-All (λ (r : ExtractionRun). (r.status ≡ run_failed) × (r.failure_code ≡ some code))
      (λ r. r.id == run_id) (fail_run code now) (λ r. (refl, refl)) s.working.runs

write-AllCompleted :
    (scope : RunScope) (now received : ℕ) (b : Build) (s : Store)
    → AllCompleted scope.run_id (write_rows scope now received b s).committed.runs
unfolding write_rows complete_run
write-AllCompleted scope now received b s =
    update_with-All (λ (r : ExtractionRun). r.status ≡ run_completed) (λ r. r.id == scope.run_id)
      (complete_run received (length b.candidate_rows) b.issue_counts now) (λ r. refl)
      s.working.runs

-- How the phase that writes ends for the run: it completes it, or fails it with the code it raises.
abbrev pub PhaseEnds : ℕ → Outcome {0} Unit × Store → Type 0
PhaseEnds run_id (returned u, mid) = AllCompleted run_id mid.working.runs
PhaseEnds run_id (raised e, mid) =
    (code : String) × (e ≡ extraction_service_error code)
    × (mid.working ≡ mid.committed)
    × AllFailed run_id code mid.committed.runs

fail_with-PhaseEnds :
    (scope : RunScope) (now : ℕ) (code : String) (s : Store)
    → PhaseEnds scope.run_id (fail_with scope now code s)
unfolding fail_with mark_run_failed
fail_with-PhaseEnds scope now code s = (code, refl, refl, mark-AllFailed scope.run_id code now s)

running-true : (s : RunStatus) → s ≡ running → is_running s ≡ true
running-true s e = ground (arith, e)

-- The run is this attempt's and running.
abbrev pub Owned : String → Option ExtractionRun → Type 0
Owned attempt_id none = ⊥
Owned attempt_id (some run) =
    (run.status ≡ running) × (str_eq run.extraction_attempt_id attempt_id ≡ true)

module _ (scope : RunScope) (now : ℕ) (attempt_id snapshot : String)
    (units : List CandidateUnit) where
  abbrev Ends : Outcome {0} Unit × Store → Type 0
  Ends = PhaseEnds scope.run_id

  over_pages-PhaseEnds :
      (pages : List DocumentPage) (s : Store) → Ends (over_pages scope now snapshot units pages s)
  unfolding over_pages write_built write_rows
  over_pages-PhaseEnds pages s =
      if_both Ends (not (str_eq (compute_snapshot_sha256 scope.ops pages) snapshot)) _ _
        (λ _. fail_with-PhaseEnds scope now "SNAPSHOT_HASH_MISMATCH" s)
        (λ _.
          if_both Ends (not (all_hashes_match scope.ops pages)) _ _
            (λ _. fail_with-PhaseEnds scope now "PAGE_CONTENT_HASH_MISMATCH" s)
            (λ _.
              write-AllCompleted scope now (length units) (build scope pages units no_rows)
                (supersede_stale_candidates scope now s).1))

  over_document-PhaseEnds :
      (o : Option Document) (s : Store) → Ends (over_document scope now snapshot units o s)
  unfolding over_document
  over_document-PhaseEnds none s = fail_with-PhaseEnds scope now "DOCUMENT_NOT_COMPLETED" s
  over_document-PhaseEnds (some doc) s =
      if_both Ends (is_completed doc.ingestion_status) _ _ (λ _. over_pages-PhaseEnds _ s)
        (λ _. fail_with-PhaseEnds scope now "DOCUMENT_NOT_COMPLETED" s)

  over_run-PhaseEnds :
      (o : Option ExtractionRun) (s : Store)
      → Owned attempt_id o
      → Ends (over_run scope now attempt_id snapshot units o s)
  unfolding over_run
  over_run-PhaseEnds none s owned = absurd owned
  over_run-PhaseEnds (some run) s (is_live, own) =
      if_both Ends (not (is_running run.status)) _ _
        (λ e. absurd (ground (arith, e, running-true run.status is_live)))
        (λ _.
          if_both Ends (not (str_eq run.extraction_attempt_id attempt_id)) _ _
            (λ e. absurd (ground (arith, e, own))) (λ _. over_document-PhaseEnds _ s))

  -- If the run is this attempt's, the phase that writes completes it or fails it with its code.
  pub persist-PhaseEnds :
      (s : Store)
      → Owned attempt_id (first_with (λ r. r.id == scope.run_id) s.working.runs)
      → Ends (persist_candidates scope now attempt_id snapshot units s)
  unfolding persist_candidates
  persist-PhaseEnds s owned = over_run-PhaseEnds _ s owned
