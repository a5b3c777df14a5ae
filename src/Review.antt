-- ===== src/Review.antt =====
-- app/services/candidate_review.py: how a human decision turns a proposed candidate into a
-- requirement. Each call is one transaction; row locks leave no trace in the model, and the unique
-- constraint on a requirement's candidate is checked where the requirement is flushed.
pub mod Checks
pub mod Write
pub mod Words
pub mod Outcomes
pub mod Effects
pub mod Decided
pub mod Provenance
pub mod Settled
pub mod Once
mod Examples
use rfp.Database.{
  AuditEvent, Error, Outcome, candidate_review_error, integrity_error, number, raised, returned,
  reviewer_authorization_error, text,
}
use rfp.Extraction.Persist.{is_proposed_status}
use rfp.Extraction.Store.{Store, commit_rows, first_with, rollback_rows}
use rfp.Extraction.World.{CandidateReviewTask, CandidateStatus-discrete, RequirementCandidate, User}
use rfp.Prelude.{
  Bool, Option, String, Text, [], false, if◌then◌else◌, is_some, ite, none, some, true, ◌&&◌, ◌==◌,
  ◌∷◌,
}
use rfp.Review.Checks.{
  Decision, ReviewCall, ReviewResult, decision_name, decision_named, decision_to_status,
  failed_with, normalize_comment, require_requirement_reviewer, revalidate_source, status_text,
}
use rfp.Review.Write.{Wording, applied, id_of, is_source, promoted, review_event, wording}

-- The flush of a second requirement for the candidate violates the unique constraint.
flushed :
    ReviewCall
    → Decision
    → User
    → Option Text
    → RequirementCandidate
    → Wording
    → Store
    → Outcome ReviewResult × Store
unfolding applied
flushed call d reviewer comment c w store =
    if is_some (promoted call d c w)
      && is_some (first_with (is_source c.id) store.working.requirements)
    then (raised integrity_error, store)
    else applied call d reviewer comment c w store

with_wording :
    ReviewCall
    → Decision
    → User
    → Option Text
    → RequirementCandidate
    → Outcome Wording
    → Store
    → Outcome ReviewResult × Store
unfolding flushed
with_wording call d reviewer comment c (raised e) store = (raised e, store)
with_wording call d reviewer comment c (returned w) store =
    flushed call d reviewer comment c w store

with_comment :
    ReviewCall
    → Decision
    → User
    → RequirementCandidate
    → Outcome (Option Text)
    → Store
    → Outcome ReviewResult × Store
unfolding with_wording
with_comment call d reviewer c (raised e) store = (raised e, store)
with_comment call d reviewer c (returned comment) store =
    with_wording call d reviewer comment c (wording call.ops d c call.edited_text) store

with_source :
    ReviewCall
    → Decision
    → User
    → RequirementCandidate
    → Option String
    → Store
    → Outcome ReviewResult × Store
unfolding with_comment
with_source call d reviewer c (some code) store = (failed_with code, store)
with_source call d reviewer c none store =
    with_comment call d reviewer c (normalize_comment call.ops call.reviewer_comment) store

with_task :
    ReviewCall
    → Decision
    → User
    → RequirementCandidate
    → Option CandidateReviewTask
    → Store
    → Outcome ReviewResult × Store
unfolding with_source
with_task call d reviewer c none store = (failed_with "REVIEW_TASK_MISSING", store)
with_task call d reviewer c (some task) store =
    with_source call d reviewer c (revalidate_source call.ops store.working c) store

is_replay : Decision → RequirementCandidate → Bool
is_replay d c = ite (CandidateStatus-discrete c.candidate_status (decision_to_status d)) true false

conflict_event : ReviewCall → Decision → RequirementCandidate → Bool → Option String → AuditEvent
unfolding review_event
conflict_event call d c replay request_id =
    review_event call "candidate_review_conflict"
      (("project_id", number c.project_id)
        ∷ ("extraction_run_id", number c.extraction_run_id)
        ∷ ("decision", text (decision_name d))
        ∷ ("current_status", text (status_text c.candidate_status))
        ∷ ("result_code", text (if replay then "REVIEW_ALREADY_DECIDED" else "REVIEW_CONFLICT"))
        ∷ [])
      request_id

-- A candidate that is no longer PROPOSED.
settled_already :
    ReviewCall → Decision → RequirementCandidate → Store → Outcome ReviewResult × Store
unfolding is_replay conflict_event
settled_already call d c store =
    let replay = is_replay d c in
    let existing = first_with (is_source c.id) store.working.requirements in
    let logged = commit_rows (record store {
      working = record store.working {
        audit = conflict_event call d c replay store.request_id ∷ store.working.audit;
      };
    }) in
    if replay
    then (
      returned (record {
        candidate_id = c.id;
        candidate_status = c.candidate_status;
        requirement_id = id_of existing;
        result_code = "REVIEW_ALREADY_DECIDED";
        idempotent_replay = true;
      }),
      logged,
    )
    else (failed_with "REVIEW_CONFLICT", logged)

with_candidate :
    ReviewCall
    → Decision
    → User
    → Option RequirementCandidate
    → Store
    → Outcome ReviewResult × Store
unfolding with_task settled_already
with_candidate call d reviewer none store = (failed_with "REVIEW_CANDIDATE_NOT_FOUND", store)
with_candidate call d reviewer (some c) store =
    if is_proposed_status c.candidate_status
    then with_task call d reviewer c
        (first_with (λ t. (t.candidate_id == c.id) && (t.organization_id == call.org_id))
          store.working.review_tasks)
        store
    else settled_already call d c store

-- The `except` clauses around the transaction.
reported : Error → Error
reported (candidate_review_error code) = candidate_review_error code
reported _ = candidate_review_error "REVIEW_CONFLICT"

guarded : Outcome ReviewResult × Store → Outcome ReviewResult × Store
unfolding reported
guarded (returned r, store) = (returned r, store)
guarded (raised e, store) = (raised (reported e), rollback_rows store)

result_code_of : Error → String
result_code_of (reviewer_authorization_error status_code code) = code
result_code_of _ = ""

with_reviewer : ReviewCall → Decision → Outcome User → Store → Outcome ReviewResult × Store
unfolding guarded with_candidate review_event result_code_of
with_reviewer call d (returned reviewer) store = guarded (
    with_candidate call d reviewer
      (first_with (λ c. (c.id == call.candidate_id) && (c.organization_id == call.org_id))
        store.working.candidates)
      store)
with_reviewer call d (raised e) store = (
  raised e,
  commit_rows (record store {
    working = record store.committed {
      audit =
          review_event call "candidate_review_unauthorized"
            (("decision", text (decision_name d)) ∷ ("result_code", text (result_code_of e)) ∷ [])
            store.request_id
          ∷ store.committed.audit;
    };
  }),
)

with_decision : ReviewCall → Option Decision → Store → Outcome ReviewResult × Store
unfolding with_reviewer
with_decision call none store = (failed_with "REVIEW_INVALID_DECISION", store)
with_decision call (some d) store =
    with_reviewer call d (require_requirement_reviewer store.working call.reviewer_id call.org_id)
      store

unfoldable pub review_requirement_candidate : ReviewCall → Store → Outcome ReviewResult × Store
unfolding with_decision
review_requirement_candidate call store = with_decision call (decision_named call.decision) store
