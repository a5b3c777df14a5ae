-- ===== src/Extraction/Persist/Atomic.antt =====
-- How phase C ends: it writes everything in one commit, or it writes no candidate at all.
use rfp.Database.{Document, DocumentPage, Outcome, completed, raised, returned}
use rfp.Extraction.{CandidateUnit, RunScope}
use rfp.Extraction.Account.{total}
use rfp.Extraction.Persist.{all_hashes_match, is_stale, superseded_candidate}
use rfp.Extraction.Persist.Stale.{TasksKept}
use rfp.Extraction.Sound.{IsSound}
use rfp.Extraction.Store.{
  Store, compute_snapshot_sha256, first_with, load_ordered_pages, update_with,
}
use rfp.Extraction.World.{
  CandidateReviewTask, ExtractionRun, RequirementCandidate, run_completed, running,
}
use rfp.Prelude.{
  All, Bool, List, String, [], arith, false, if_both, length, map, some, str_eq, true, ℕ, ◌++◌, ◌+◌,
  ◌==◌, ◌∷◌, ◌≡◌, ◌⊎◌,
}
use rfp.Prelude.Dict.{Dict}

-- The counters of a run that kept `accepted` of `received` proposals.
pub record IsCounted (received accepted : ℕ) (run : ExtractionRun) : Type 0 where
  pub done : run.status ≡ run_completed
  pub of_received : run.received_candidate_count ≡ received
  pub of_accepted : run.accepted_candidate_count ≡ accepted
  pub adds_up : run.accepted_candidate_count + run.skipped_candidate_count ≡ received
  pub explained : total run.validation_issue_counts ≡ run.skipped_candidate_count

abbrev pub pages_now : RunScope → Store → List DocumentPage
pages_now scope store = load_ordered_pages scope.document_id store.working.pages

module _ (scope : RunScope) (now : ℕ) (attempt_id snapshot : String) (units : List CandidateUnit)
    (before : Store) where
  -- The attempt owns the run, the document is unchanged since the snapshot, and its candidates and
  -- their tasks are committed with the run's counters.
  pub record Written (after : Store) : Type 0 where
    pub run : ExtractionRun
    pub doc : Document
    pub new_candidates : List RequirementCandidate
    pub new_tasks : List CandidateReviewTask
    pub found_run : first_with (λ r. r.id == scope.run_id) before.working.runs ≡ some run
    pub was_running : run.status ≡ running
    pub own_attempt : str_eq run.extraction_attempt_id attempt_id ≡ true
    pub found_document :
        first_with (λ d. d.id == scope.document_id) before.working.documents ≡ some doc
    pub was_completed : doc.ingestion_status ≡ completed
    pub same_snapshot :
        str_eq (compute_snapshot_sha256 scope.ops (pages_now scope before)) snapshot ≡ true
    pub pages_intact : all_hashes_match scope.ops (pages_now scope before) ≡ true
    pub candidates :
        after.committed.candidates
        ≡ new_candidates
          ++ update_with (is_stale scope) superseded_candidate before.working.candidates
    pub sound : All (IsSound scope (pages_now scope before)) new_candidates
    pub paired : map (λ t. t.candidate_id) new_tasks ≡ map (λ c. c.id) new_candidates
    pub old_tasks : List CandidateReviewTask
    pub tasks_added : after.committed.review_tasks ≡ new_tasks ++ old_tasks
    pub tasks_kept : TasksKept scope now before.working.review_tasks old_tasks
    pub counted :
        All
          (λ r. (r.id == scope.run_id) ≡ true → IsCounted (length units) (length new_candidates) r)
          after.committed.runs
    pub settled : after.working ≡ after.committed

  -- No candidate and no review task has changed; at most the run has been marked.
  pub record Refused (after : Store) : Type 0 where
    pub same_candidates : after.working.candidates ≡ before.working.candidates
    pub same_tasks : after.working.review_tasks ≡ before.working.review_tasks
    pub committed_or_unchanged : (after ≡ before) ⊎ (after.committed ≡ after.working)

  abbrev pub Ending : Outcome {0} Unit × Store → Type 0
  Ending (returned r, after) = Written after
  Ending (raised e, after) = Refused after

clash : {A : Type 0} {b : Bool} → b ≡ false → b ≡ true → A
clash e h = absurd (ground (arith, e, h))

pub update_with-All :
    {A : Type 0} (P : A → Type 0) (p : A → Bool) (f : A → A)
    → ((x : A) → P (f x))
    → (xs : List A) → All (λ x. p x ≡ true → P x) (update_with p f xs)
unfolding update_with
update_with-All P p f g [] = tt
update_with-All P p f g (x ∷ xs) = (
  if_both (λ y. p y ≡ true → P y) (p x) (f x) x (λ _ _. g x) (λ e h. clash e h),
  update_with-All P p f g xs,
)

module _ (scope : RunScope) (now : ℕ) (attempt_id snapshot : String) (units : List CandidateUnit)
    (before : Store) where
  abbrev Ends : Outcome {0} Unit × Store → Type 0
  Ends = Ending scope now attempt_id snapshot units before
