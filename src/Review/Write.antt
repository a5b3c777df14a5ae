-- ===== src/Review/Write.antt =====
-- What app/services/candidate_review.py writes for a decision: the candidate, the requirement, the
-- review task and the audit event.
use rfp.Database.{AuditEvent, Detail, Outcome, number, optional_number, raised, returned, text}
use rfp.Extraction.Store.{Store, commit_rows, update_with}
use rfp.Extraction.World.{
  CandidateReviewTask, Requirement, RequirementCandidate, TextOps, User, task_completed, task_open,
}
use rfp.Prelude.{
  Bool, List, Option, String, Text, [], false, none, or_else, some, ℕ, ◌&&◌, ◌==◌, ◌∷◌,
}
use rfp.Prelude.Dict.{Dict}
use rfp.Review.Checks.{
  Decision, ReviewCall, ReviewResult, approve, decision_name, decision_to_audit, decision_to_status,
  edit, failed_with, normalize_reviewer_text, reject, status_text,
}

-- What a review writes when it is decided: the reviewer's text if any, and the requirement's text.
pub record Wording : Type 0 where
  pub reviewed : Option Text
  pub final : Text

unfoldable pub edit_wording : TextOps → Option Text → Outcome Wording
edit_wording ops none = failed_with "REVIEW_EDIT_TEXT_REQUIRED"
edit_wording ops (some raw) = elim (normalize_reviewer_text ops raw) [
  | returned t ↦ returned (record { reviewed = some t; final = t })
  | raised e ↦ raised e
]

unfoldable pub wording : TextOps → Decision → RequirementCandidate → Option Text → Outcome Wording
unfolding edit_wording
wording ops edit c edited_text = edit_wording ops edited_text
wording ops approve c edited_text =
    returned (record { reviewed = c.reviewer_edited_text; final = c.normalized_requirement_text })
wording ops reject c edited_text =
    returned (record { reviewed = c.reviewer_edited_text; final = [] })

unfoldable pub decided :
    ReviewCall
    → Decision
    → User
    → Option Text
    → Wording
    → RequirementCandidate
    → RequirementCandidate
decided call d reviewer comment w c = record c {
  reviewer_edited_text = w.reviewed;
  candidate_status = decision_to_status d;
  reviewed_at = some call.now;
  reviewed_by = some reviewer.id;
  reviewer_comment = comment;
}

unfoldable pub requirement_of : ReviewCall → RequirementCandidate → Wording → Requirement
requirement_of call c w = record {
  id = call.fresh_id;
  project_id = c.project_id;
  source_document_id = c.document_id;
  source_candidate_id = some c.id;
  original_text = w.final;
  source_page = none;
  source_section = c.source_locator;
  requirement_type = c.requirement_type;
  status = "NOT_STARTED";
}

-- APPROVE and EDIT promote the candidate; REJECT does not.
unfoldable pub promoted :
    ReviewCall → Decision → RequirementCandidate → Wording → Option Requirement
promoted call approve c w = some (requirement_of call c w)
promoted call edit c w = some (requirement_of call c w)
promoted call reject c w = none

unfoldable pub completed_task : ReviewCall → User → CandidateReviewTask → CandidateReviewTask
completed_task call reviewer task = elim task.status [
  | task_open ↦ record task {
    status = task_completed;
    assigned_to_id = some (or_else task.assigned_to_id reviewer.id);
    resolved_at = some call.now;
  }
  | _ ↦ task
]

unfoldable pub is_source : ℕ → Requirement → Bool
is_source candidate_id r = elim r.source_candidate_id [ none ↦ false | some n ↦ n == candidate_id ]

unfoldable pub review_event : ReviewCall → String → Dict Detail → Option String → AuditEvent
review_event call action details request_id = record {
  organization_id = call.org_id;
  user_id = some call.reviewer_id;
  action = action;
  entity_type = "RequirementCandidate";
  entity_id = call.candidate_id;
  details = details;
  request_id = request_id;
}

unfoldable pub decided_details :
    ReviewCall → Decision → User → RequirementCandidate → Option ℕ → Dict Detail
decided_details call d reviewer c requirement_id =
    ("project_id", number c.project_id)
    ∷ ("document_id", number c.document_id)
    ∷ ("extraction_run_id", number c.extraction_run_id)
    ∷ ("requirement_id", optional_number requirement_id)
    ∷ ("reviewer_id", number reviewer.id)
    ∷ ("decision", text (decision_name d))
    ∷ ("candidate_status", text (status_text (decision_to_status d)))
    ∷ ("extraction_schema_version", text c.extraction_schema_version)
    ∷ ("reviewed_at", number call.now)
    ∷ ("result_code", text "REVIEW_OK")
    ∷ []

abbrev pub added : Option Requirement → List Requirement → List Requirement
added none rs = rs
added (some r) rs = r ∷ rs

abbrev pub id_of : Option Requirement → Option ℕ
id_of none = none
id_of (some r) = some r.id

-- Steps 6 to 12 once the wording is known: the rows, the audit event and the commit.
unfoldable pub applied :
    ReviewCall
    → Decision
    → User
    → Option Text
    → RequirementCandidate
    → Wording
    → Store
    → Outcome ReviewResult × Store
unfolding decided completed_task review_event decided_details
applied call d reviewer comment c w store =
    let requirement = promoted call d c w in
    (
      returned (record {
        candidate_id = c.id;
        candidate_status = decision_to_status d;
        requirement_id = id_of requirement;
        result_code = "REVIEW_OK";
        idempotent_replay = false;
      }),
      commit_rows (record store {
        working = record store.working {
          candidates =
              update_with (λ k. k.id == c.id) (decided call d reviewer comment w)
                store.working.candidates;
          requirements = added requirement store.working.requirements;
          review_tasks =
              update_with (λ t. (t.candidate_id == c.id) && (t.organization_id == call.org_id))
                (completed_task call reviewer) store.working.review_tasks;
          audit =
              review_event call (decision_to_audit d)
                (decided_details call d reviewer c (id_of requirement)) store.request_id
              ∷ store.working.audit;
        };
      }),
    )
