-- ===== src/Extraction/Persist.antt =====
-- `_mark_run_failed`, `_supersede_stale_candidates` and `_persist_candidates` of
-- app/services/candidate_extraction.py. The database itself does not fail in this model, and its
-- row locks leave no trace.
pub mod Stale
pub mod Atomic
pub mod RunEnds
use rfp.Database.{
  AuditEvent, Document, DocumentPage, Outcome, Status, completed, extraction_service_error, number,
  raised, returned, status, text,
}
use rfp.Extraction.{Build, CandidateUnit, RunScope, build, no_rows}
use rfp.Extraction.Store.{
  Store, commit_rows, compute_snapshot_sha256, first_with, load_ordered_pages, rows_with,
  update_with,
}
use rfp.Extraction.World.{
  CandidateReviewTask, CandidateStatus, ExtractionRun, RequirementCandidate, RunStatus, TaskStatus,
  TextOps, hash_matches, proposed, run_completed, run_failed, running, superseded, task_open,
  task_superseded,
}
use rfp.Prelude.{
  Bool, List, Option, String, [], false, if◌then◌else◌, length, map, none, not, some, str_eq, true,
  ℕ, ◌&&◌, ◌++◌, ◌-◌, ◌==◌, ◌||◌, ◌∷◌,
}
use rfp.Prelude.Dict.{Dict}
use rfp.Promotion.{failure_code}

abbrev pub is_proposed_status : CandidateStatus → Bool
is_proposed_status proposed = true
is_proposed_status _ = false

abbrev is_running : RunStatus → Bool
is_running running = true
is_running _ = false

abbrev is_task_open : TaskStatus → Bool
is_task_open task_open = true
is_task_open _ = false

abbrev pub is_completed : Status → Bool
is_completed completed = true
is_completed _ = false

unfoldable pub has_id : List ℕ → ℕ → Bool
has_id [] n = false
has_id (m ∷ rest) n = (m == n) || has_id rest n

fail_run : String → ℕ → ExtractionRun → ExtractionRun
fail_run code now run = record run {
  status = run_failed;
  failure_code = some code;
  completed_at = some now;
}

unfoldable pub mark_run_failed : ℕ → String → ℕ → Store → Store
unfolding fail_run
mark_run_failed run_id code now store = commit_rows (record store {
  working = record store.working {
    runs = update_with (λ r. r.id == run_id) (fail_run code now) store.working.runs;
  };
})

unfoldable pub is_stale : RunScope → RequirementCandidate → Bool
is_stale scope c =
    (c.organization_id == scope.organization_id)
    && (c.document_id == scope.document_id)
    && not (c.extraction_run_id == scope.run_id)
    && is_proposed_status c.candidate_status

abbrev pub superseded_candidate : RequirementCandidate → RequirementCandidate
superseded_candidate c = record c { candidate_status = superseded }

unfoldable pub is_open_task_of : RunScope → List ℕ → CandidateReviewTask → Bool
is_open_task_of scope ids task =
    (task.organization_id == scope.organization_id)
    && has_id ids task.candidate_id
    && is_task_open task.status

abbrev pub superseded_task : ℕ → CandidateReviewTask → CandidateReviewTask
superseded_task now task = record task { status = task_superseded; resolved_at = some now }

superseded_event : RunScope → ℕ → ℕ → ℕ → Option String → AuditEvent
superseded_event scope project_id count closed request_id = record {
  organization_id = scope.organization_id;
  user_id = none;
  action = "candidate_superseded";
  entity_type = "ExtractionRun";
  entity_id = scope.run_id;
  details =
      ("project_id", number project_id)
      ∷ ("document_id", number scope.document_id)
      ∷ ("superseded_candidate_count", number count)
      ∷ ("closed_task_count", number closed)
      ∷ ("extraction_schema_version", text "requirement-candidates-v1")
      ∷ ("result_code", text "candidate_superseded")
      ∷ [];
  request_id = request_id;
}

supersede_these : RunScope → ℕ → List RequirementCandidate → Store → ℕ × Store
unfolding superseded_event
supersede_these scope now [] store = (0, store)
supersede_these scope now (c ∷ cs) store =
    let ids = map (λ k. k.id) (c ∷ cs) in
    let open_tasks = rows_with (is_open_task_of scope ids) store.working.review_tasks in
    let event =
      superseded_event scope c.project_id (length (c ∷ cs)) (length open_tasks) store.request_id in
    (
      length (c ∷ cs),
      record store {
        working = record store.working {
          candidates = update_with (is_stale scope) superseded_candidate store.working.candidates;
          review_tasks =
              update_with (is_open_task_of scope ids) (superseded_task now)
                store.working.review_tasks;
          audit = event ∷ store.working.audit;
        };
      },
    )

unfoldable pub supersede_stale_candidates : RunScope → ℕ → Store → ℕ × Store
unfolding supersede_these
supersede_stale_candidates scope now store =
    supersede_these scope now (rows_with (is_stale scope) store.working.candidates) store

-- `issue_counts or None` is stored as it is: an empty dictionary stands for `None`.
unfoldable pub complete_run : ℕ → ℕ → Dict ℕ → ℕ → ExtractionRun → ExtractionRun
complete_run received accepted issues now run = record run {
  status = run_completed;
  candidate_count = accepted;
  received_candidate_count = received;
  accepted_candidate_count = accepted;
  skipped_candidate_count = received - accepted;
  validation_issue_counts = issues;
  completed_at = some now;
}

-- The atomic write at the end.
unfoldable pub write_rows : RunScope → ℕ → ℕ → Build → Store → Store
write_rows scope now received b store = commit_rows (record store {
  working = record store.working {
    candidates = b.candidate_rows ++ store.working.candidates;
    review_tasks = b.task_rows ++ store.working.review_tasks;
    runs =
        update_with (λ r. r.id == scope.run_id)
          (complete_run received (length b.candidate_rows) b.issue_counts now) store.working.runs;
  };
})

unfoldable pub all_hashes_match : TextOps → List DocumentPage → Bool
all_hashes_match ops [] = true
all_hashes_match ops (page ∷ rest) = hash_matches ops page && all_hashes_match ops rest

fail_with : RunScope → ℕ → String → Store → Outcome {0} Unit × Store
fail_with scope now code store =
    (raised (extraction_service_error code), mark_run_failed scope.run_id code now store)

write_built : RunScope → ℕ → ℕ → Build → Store → Outcome {0} Unit × Store
write_built scope now received b store =
    (returned tt, write_rows scope now received b (supersede_stale_candidates scope now store).1)

-- From the snapshot check on, over the pages as they are now.
over_pages :
    RunScope
    → ℕ
    → String
    → List CandidateUnit
    → List DocumentPage
    → Store
    → Outcome {0} Unit × Store
unfolding fail_with write_built
over_pages scope now snapshot units pages store =
    if not (str_eq (compute_snapshot_sha256 scope.ops pages) snapshot)
    then fail_with scope now "SNAPSHOT_HASH_MISMATCH" store
    else if not (all_hashes_match scope.ops pages)
    then fail_with scope now "PAGE_CONTENT_HASH_MISMATCH" store
    else write_built scope now (length units) (build scope pages units no_rows) store

over_document :
    RunScope → ℕ → String → List CandidateUnit → Option Document → Store → Outcome {0} Unit × Store
unfolding fail_with over_pages
over_document scope now snapshot units none store =
    fail_with scope now "DOCUMENT_NOT_COMPLETED" store
over_document scope now snapshot units (some doc) store =
    if is_completed doc.ingestion_status
    then over_pages scope now snapshot units
        (load_ordered_pages scope.document_id store.working.pages) store
    else fail_with scope now "DOCUMENT_NOT_COMPLETED" store

over_run :
    RunScope
    → ℕ
    → String
    → String
    → List CandidateUnit
    → Option ExtractionRun
    → Store
    → Outcome {0} Unit × Store
unfolding over_document
over_run scope now attempt_id snapshot units none store =
    (raised (extraction_service_error "PERSISTENCE_FAILED"), store)
over_run scope now attempt_id snapshot units (some run) store =
    if not (is_running run.status)
    then (raised (extraction_service_error "PERSISTENCE_FAILED"), store)
    else if not (str_eq run.extraction_attempt_id attempt_id)
    then (raised (extraction_service_error "STALE_EXTRACTION_ATTEMPT"), store)
    else over_document scope now snapshot units
        (first_with (λ d. d.id == scope.document_id) store.working.documents) store

unfoldable pub persist_candidates :
    RunScope → ℕ → String → String → List CandidateUnit → Store → Outcome {0} Unit × Store
unfolding over_run
persist_candidates scope now attempt_id snapshot units store =
    over_run scope now attempt_id snapshot units
      (first_with (λ r. r.id == scope.run_id) store.working.runs) store
