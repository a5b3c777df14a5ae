-- ===== src/Review/Checks.antt =====
-- The checks of app/services/candidate_review.py, and `require_requirement_reviewer` of
-- app/core/security.py: the reviewer, the reviewer's words, and the candidate's source.
use rfp.Database.{
  DocumentPage, Outcome, ProposalProject, candidate_review_error, raised, returned,
  reviewer_authorization_error,
}
use rfp.Extraction.Store.{Rows, first_with}
use rfp.Extraction.World.{
  CandidateStatus, ExtractionRun, RequirementCandidate, TextOps, User, approved, edited,
  find_unsafe_content, hash_matches, is_empty, proposed, rejected, strip, superseded,
}
use rfp.Prelude.{
  Bool, Option, String, Text, false, if◌then◌else◌, is_some, leb, length, ltb, none, not, or_else,
  same_text, slice, some, str_eq, ℕ, ◌&&◌, ◌==◌, ◌||◌,
}

pub data Decision : Type 0 where
  approve edit reject : Decision

unfoldable pub decision_named : String → Option Decision
decision_named s =
    if str_eq s "APPROVE"
    then some approve
    else if str_eq s "EDIT"
    then some edit
    else if str_eq s "REJECT"
    then some reject
    else none

abbrev pub decision_name : Decision → String
decision_name approve = "APPROVE"
decision_name edit = "EDIT"
decision_name reject = "REJECT"

-- _DECISION_TO_STATUS
abbrev pub decision_to_status : Decision → CandidateStatus
decision_to_status approve = approved
decision_to_status edit = edited
decision_to_status reject = rejected

-- _DECISION_TO_AUDIT
abbrev pub decision_to_audit : Decision → String
decision_to_audit approve = "candidate_review_approved"
decision_to_audit edit = "candidate_review_edited"
decision_to_audit reject = "candidate_review_rejected"

abbrev pub status_text : CandidateStatus → String
status_text proposed = "PROPOSED"
status_text approved = "APPROVED"
status_text edited = "EDITED"
status_text rejected = "REJECTED"
status_text superseded = "SUPERSEDED"

pub record ReviewResult : Type 0 where
  pub candidate_id : ℕ
  pub candidate_status : CandidateStatus
  pub requirement_id : Option ℕ
  pub result_code : String
  pub idempotent_replay : Bool

-- One call: the arguments, the time of day and the identifier that a new requirement gets.
pub record ReviewCall : Type 0 where
  pub ops : TextOps
  pub now : ℕ
  pub fresh_id : ℕ
  pub candidate_id : ℕ
  pub reviewer_id : ℕ
  pub org_id : ℕ
  pub decision : String
  pub edited_text : Option Text
  pub reviewer_comment : Option Text

abbrev pub failed_with {ℓ} : {A : Type ℓ} → String → Outcome A
failed_with code = raised (candidate_review_error code)

abbrev pub max_reviewer_edited_text_len : ℕ
max_reviewer_edited_text_len = 2000

abbrev pub max_reviewer_comment_len : ℕ
max_reviewer_comment_len = 1000

unfoldable pub checked_reviewer_text : Text → Outcome Text
checked_reviewer_text chars =
    if is_empty chars
    then failed_with "REVIEW_EDIT_TEXT_REQUIRED"
    else if ltb max_reviewer_edited_text_len (length chars)
    then failed_with "REVIEW_EDIT_TEXT_INVALID"
    else if is_some (find_unsafe_content chars)
    then failed_with "REVIEW_EDIT_TEXT_INVALID"
    else returned chars

unfoldable pub normalize_reviewer_text : TextOps → Text → Outcome Text
unfolding checked_reviewer_text
normalize_reviewer_text ops raw = checked_reviewer_text (strip ops (ops.nfc raw))

checked_comment : Text → Outcome (Option Text)
checked_comment chars =
    if is_empty chars
    then returned none
    else if ltb max_reviewer_comment_len (length chars)
    then failed_with "REVIEW_COMMENT_INVALID"
    else if is_some (find_unsafe_content chars)
    then failed_with "REVIEW_COMMENT_INVALID"
    else returned (some chars)

unfoldable pub normalize_comment : TextOps → Option Text → Outcome (Option Text)
unfolding checked_comment
normalize_comment ops none = returned none
normalize_comment ops (some raw) = checked_comment (strip ops (ops.nfc raw))

unfoldable pub run_applies : RequirementCandidate → Option ExtractionRun → Option String
run_applies c none = some "REVIEW_RUN_NOT_APPLICABLE"
run_applies c (some run) =
    if (run.document_id == c.document_id) && (run.organization_id == c.organization_id)
    then none
    else some "REVIEW_RUN_NOT_APPLICABLE"

unfoldable pub project_linked : RequirementCandidate → Option ProposalProject → Bool
project_linked c none = false
project_linked c (some project) = project.organization_id == c.organization_id

-- What the source row must still say about the candidate's evidence.
unfoldable pub evidence_holds : TextOps → RequirementCandidate → DocumentPage → Bool
evidence_holds ops c page =
    hash_matches ops page
    && str_eq (or_else page.content_sha256 "") c.page_content_sha256
    && not (ltb (length page.content) c.span_end || leb c.span_end c.span_start)
    && same_text (slice page.content c.span_start c.span_end) c.evidence_text
    && str_eq (ops.sha256 c.evidence_text) c.evidence_sha256

unfoldable pub revalidate_on :
    TextOps → Rows → RequirementCandidate → Option DocumentPage → Option String
unfolding project_linked evidence_holds run_applies
revalidate_on ops rows c none = some "REVIEW_SOURCE_DRIFT"
revalidate_on ops rows c (some page) =
    if not (page.document_id == c.document_id)
    then some "REVIEW_SOURCE_DRIFT"
    else if not (project_linked c (first_with (λ p. p.id == c.project_id) rows.projects))
    then some "REVIEW_SOURCE_DRIFT"
    else if not (evidence_holds ops c page)
    then some "REVIEW_SOURCE_DRIFT"
    else run_applies c (first_with (λ r. r.id == c.extraction_run_id) rows.runs)

-- `_revalidate_source`: the code that it raises, if it does.
unfoldable pub revalidate_source : TextOps → Rows → RequirementCandidate → Option String
unfolding revalidate_on
revalidate_source ops rows c =
    revalidate_on ops rows c (first_with (λ p. p.id == c.document_page_id) rows.pages)

unfoldable pub reviewer_checked : ℕ → Option User → Outcome User
reviewer_checked org_id none = raised (reviewer_authorization_error 401 "REVIEW_AUTH_NO_USER")
reviewer_checked org_id (some user) =
    if not user.is_active
    then raised (reviewer_authorization_error 401 "REVIEW_AUTH_INACTIVE")
    else if not (user.organization_id == org_id)
    then raised (reviewer_authorization_error 404 "REVIEW_AUTH_TENANT_MISMATCH")
    else if not user.can_review_requirements
    then raised (reviewer_authorization_error 403 "REVIEW_AUTH_NO_CAPABILITY")
    else returned user

unfoldable pub require_requirement_reviewer : Rows → ℕ → ℕ → Outcome User
unfolding reviewer_checked
require_requirement_reviewer rows user_id org_id =
    reviewer_checked org_id (first_with (λ u. u.id == user_id) rows.users)
