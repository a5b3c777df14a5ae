-- ===== src/Review/Outcomes.antt =====
-- What the ways in which a review ends mean for the rows.
use rfp.Database.{AuditEvent, Outcome, raised, returned}
use rfp.Extraction.Store.{Rows, Store, first_with, update_with}
use rfp.Extraction.World.{
  CandidateStatus, Requirement, RequirementCandidate, User, approved, edited, proposed, rejected,
  strip,
}
use rfp.Prelude.{
  List, Option, String, Text, [], false, is_some, none, refl, some, true, ℕ, ◌&&◌, ◌==◌, ◌∷◌, ◌≡◌,
  ◌≢◌, ◌⊎◌,
}
use rfp.Review.Checks.{
  Decision, ReviewCall, ReviewResult, approve, decision_named, decision_to_status, edit,
  normalize_comment, reject, require_requirement_reviewer, revalidate_source,
}
use rfp.Review.Write.{Wording, added, decided, id_of, is_source, promoted, wording}

-- What no refused review changes.
pub record SameRows (before after : Rows) : Type 0 where
  pub same_candidates : after.candidates ≡ before.candidates
  pub same_tasks : after.review_tasks ≡ before.review_tasks
  pub same_requirements : after.requirements ≡ before.requirements

pub SameRows-refl : (rows : Rows) → SameRows rows rows
SameRows-refl rows = record { same_candidates = refl; same_tasks = refl; same_requirements = refl }

pub record Kept (before after : Store) : Type 0 where
  pub in_committed : SameRows before.working after.committed
  pub in_working : SameRows before.working after.working
  pub at_rest : after.committed ≡ after.working

abbrev pub candidate_now : ReviewCall → Store → Option RequirementCandidate
candidate_now call store =
    first_with (λ c. (c.id == call.candidate_id) && (c.organization_id == call.org_id))
      store.working.candidates

-- The candidate that the call names, and the reviewer who may decide about it.
pub record Authorized (call : ReviewCall) (before : Store) : Type 0 where
  pub decision : Decision
  pub named : decision_named call.decision ≡ some decision
  pub reviewer : User
  pub authorized :
      require_requirement_reviewer before.working call.reviewer_id call.org_id ≡ returned reviewer
  pub candidate : RequirementCandidate
  pub found_candidate : candidate_now call before ≡ some candidate

-- The status that a decision gives, and the name of its audit event.
abbrev pub StatusFor : Decision → CandidateStatus → Type 0
StatusFor approve s = s ≡ approved
StatusFor edit s = s ≡ edited
StatusFor reject s = s ≡ rejected

abbrev pub ActionFor : Decision → String → Type 0
ActionFor approve action = action ≡ "candidate_review_approved"
ActionFor edit action = action ≡ "candidate_review_edited"
ActionFor reject action = action ≡ "candidate_review_rejected"

-- A new requirement for the candidate, with this text, before the old ones.
abbrev pub Promotes :
    RequirementCandidate → Text → List Requirement → List Requirement → Option ℕ → Type 0
Promotes c words old new reported_id =
    (r : Requirement) × (new ≡ r ∷ old)
    × (reported_id ≡ some r.id)
    × (r.source_candidate_id ≡ some c.id)
    × (r.source_document_id ≡ c.document_id)
    × (r.project_id ≡ c.project_id)
    × (r.original_text ≡ words)

-- What a decision does to the requirements: APPROVE adds one with the candidate's text, EDIT one with the
-- stripped NFC form of the edited text, REJECT none.
abbrev pub RequirementsFor :
    ReviewCall
    → Decision
    → RequirementCandidate
    → List Requirement
    → List Requirement
    → Option ℕ
    → Type 0
RequirementsFor call approve c old new reported_id =
    Promotes c c.normalized_requirement_text old new reported_id
RequirementsFor call edit c old new reported_id =
    (raw : Text) × (call.edited_text ≡ some raw)
    × Promotes c (strip call.ops (call.ops.nfc raw)) old new reported_id
RequirementsFor call reject c old new reported_id = (new ≡ old) × (reported_id ≡ none)

-- The row of a candidate that was decided about: status, reviewer and comment are new, and the text of
-- the requirement, the evidence and the source are as before.
pub record DecidedRow (call : ReviewCall) (d : Decision) (reviewer : User) (comment : Option Text)
    (old new : RequirementCandidate) : Type 0 where
  pub status_for : StatusFor d new.candidate_status
  pub same_id : new.id ≡ old.id
  pub text_kept : new.normalized_requirement_text ≡ old.normalized_requirement_text
  pub same_evidence : new.evidence_text ≡ old.evidence_text
  pub same_document : new.document_id ≡ old.document_id
  pub reviewer_kept : new.reviewed_by ≡ some reviewer.id
  pub comment_kept : new.reviewer_comment ≡ comment
  pub time_kept : new.reviewed_at ≡ some call.now

-- The candidate with the identifier is decided about, and the others are as they were.
abbrev pub CandidatesFor :
    ReviewCall
    → Decision
    → User
    → Option Text
    → ℕ
    → List RequirementCandidate
    → List RequirementCandidate
    → Type 0
CandidatesFor call d reviewer comment id [] [] = Unit
CandidatesFor call d reviewer comment id (old ∷ olds) (new ∷ news) =
    (((old.id ≡ id) × DecidedRow call d reviewer comment old new) ⊎ ((old.id ≢ id) × (new ≡ old)))
    × CandidatesFor call d reviewer comment id olds news
CandidatesFor call d reviewer comment id _ _ = ⊥

-- A decision that was written.
pub record Decided (call : ReviewCall) (before : Store) (r : ReviewResult) (after : Store)
    : Type 0 where
  pub by : Authorized call before
  pub was_proposed : by.candidate.candidate_status ≡ proposed
  pub provenance : revalidate_source call.ops before.working by.candidate ≡ none
  pub comment : Option Text
  pub commented : normalize_comment call.ops call.reviewer_comment ≡ returned comment
  pub words : Wording
  pub worded : wording call.ops by.decision by.candidate call.edited_text ≡ returned words
  pub first_promotion :
      is_some (promoted call by.decision by.candidate words)
        && is_some (first_with (is_source by.candidate.id) before.working.requirements)
      ≡ false
  pub requirements :
      after.committed.requirements
      ≡ added (promoted call by.decision by.candidate words) before.working.requirements
  pub candidates :
      after.committed.candidates
      ≡ update_with
          (λ k. k.id == by.candidate.id)
          (decided call by.decision by.reviewer comment words)
          before.working.candidates
  pub requirements_for :
      RequirementsFor call by.decision by.candidate before.working.requirements
        after.committed.requirements r.requirement_id
  pub candidates_for :
      CandidatesFor call by.decision by.reviewer comment by.candidate.id before.working.candidates
        after.committed.candidates
  pub audited :
      (e : AuditEvent) × (after.committed.audit ≡ e ∷ before.working.audit)
      × ActionFor by.decision e.action
      × (e.entity_id ≡ call.candidate_id)
      × (e.user_id ≡ some call.reviewer_id)
      × (e.organization_id ≡ call.org_id)
  pub new_status : r.candidate_status ≡ decision_to_status by.decision
  pub new_requirement : r.requirement_id ≡ id_of (promoted call by.decision by.candidate words)
  pub settled : after.working ≡ after.committed

-- The report of a decision that had been taken before.
pub record Replayed (call : ReviewCall) (before : Store) (r : ReviewResult) (after : Store)
    : Type 0 where
  pub by : Authorized call before
  pub same_decision : by.candidate.candidate_status ≡ decision_to_status by.decision
  pub replay : r.idempotent_replay ≡ true
  pub kept : Kept before after

-- What each way to end means.
abbrev pub Ending : ReviewCall → Store → Outcome ReviewResult × Store → Type 0
Ending call before (returned r, after) = Decided call before r after ⊎ Replayed call before r after
Ending call before (raised e, after) = Kept before after
