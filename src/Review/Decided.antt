-- ===== src/Review/Decided.antt =====
-- How a review ends: with a decision that is written as a whole, with the report of an earlier one,
-- or with every candidate, review task and requirement as it was.
use mathlib.Core.Path.{subst}
use rfp.Database.{AuditEvent, Outcome, raised, returned}
use rfp.Extraction.Persist.{is_proposed_status}
use rfp.Extraction.Store.{Rows, Store, first_with}
use rfp.Extraction.World.{
  CandidateReviewTask, CandidateStatus, RequirementCandidate, User, proposed,
}
use rfp.Prelude.{
  List, Option, String, Text, arith, if_both, inl, inr, is_some, none, refl, some, sym, true, ◌&&◌,
  ◌≡◌, ◌⊎◌,
}
use rfp.Review.{
  flushed, guarded, is_replay, review_requirement_candidate, settled_already, with_candidate,
  with_comment, with_decision, with_reviewer, with_source, with_task, with_wording,
}
use rfp.Review.Checks.{
  Decision, ReviewCall, ReviewResult, decision_named, decision_to_status, normalize_comment,
  require_requirement_reviewer, revalidate_source,
}
use rfp.Review.Effects.{action_of, promoted-RequirementsFor, update-CandidatesFor}
use rfp.Review.Outcomes.{
  Authorized, Decided, Ending, Replayed, SameRows, SameRows-refl, candidate_now,
}
use rfp.Review.Write.{Wording, applied, is_source, promoted, review_event, wording}

-- The same before the `except` clauses have rolled back.
abbrev Inner : ReviewCall → Store → Outcome ReviewResult × Store → Type 0
Inner call before (returned r, after) = Decided call before r after ⊎ Replayed call before r after
Inner call before (raised e, after) = SameRows before.working after.committed

module _ (call : ReviewCall) (before : Store) (fresh : before.committed ≡ before.working) where
  abbrev Ends : Outcome ReviewResult × Store → Type 0
  Ends = Inner call before

  untouched : SameRows before.working before.committed
  untouched =
      subst (λ (rows : Rows). SameRows before.working rows) (sym fresh)
        (SameRows-refl before.working)

  logged :
      (log : List AuditEvent) → SameRows before.working (record before.committed { audit = log })
  logged log = record {
    same_candidates = untouched.same_candidates;
    same_tasks = untouched.same_tasks;
    same_requirements = untouched.same_requirements;
  }

  module _ (by : Authorized call before) where
    module _ (was_proposed : by.candidate.candidate_status ≡ proposed)
        (provenance : revalidate_source call.ops before.working by.candidate ≡ none)
        (comment : Option Text)
        (commented : normalize_comment call.ops call.reviewer_comment ≡ returned comment) where
      flushed-Ends :
          (words : Wording)
          → wording call.ops by.decision by.candidate call.edited_text ≡ returned words
          → Ends (flushed call by.decision by.reviewer comment by.candidate words before)
      unfolding flushed applied review_event
      flushed-Ends words worded =
          if_both Ends
            (is_some (promoted call by.decision by.candidate words)
              && is_some (first_with (is_source by.candidate.id) before.working.requirements))
            _ _ (λ _. untouched)
            (λ e. inl (record {
              by = by;
              was_proposed = was_proposed;
              provenance = provenance;
              comment = comment;
              commented = commented;
              words = words;
              worded = worded;
              first_promotion = e;
              requirements = refl;
              candidates = refl;
              requirements_for =
                  promoted-RequirementsFor call by.decision by.candidate words
                    before.working.requirements worded;
              candidates_for =
                  update-CandidatesFor call by.decision by.reviewer comment words by.candidate.id
                    before.working.candidates;
              audited = (_, refl, action_of by.decision, refl, refl, refl);
              new_status = refl;
              new_requirement = refl;
              settled = refl;
            }))

      with_wording-Ends :
          (o : Outcome Wording)
          → wording call.ops by.decision by.candidate call.edited_text ≡ o
          → Ends (with_wording call by.decision by.reviewer comment by.candidate o before)
      unfolding with_wording
      with_wording-Ends (returned words) e = flushed-Ends words e
      with_wording-Ends (raised err) e = untouched

    with_comment-Ends :
        by.candidate.candidate_status ≡ proposed
        → revalidate_source call.ops before.working by.candidate ≡ none
        → (o : Outcome (Option Text)) → normalize_comment call.ops call.reviewer_comment ≡ o
        → Ends (with_comment call by.decision by.reviewer by.candidate o before)
    unfolding with_comment
    with_comment-Ends p v (returned comment) e = with_wording-Ends p v comment e _ refl
    with_comment-Ends p v (raised err) e = untouched

    with_source-Ends :
        by.candidate.candidate_status ≡ proposed
        → (o : Option String) → revalidate_source call.ops before.working by.candidate ≡ o
        → Ends (with_source call by.decision by.reviewer by.candidate o before)
    unfolding with_source
    with_source-Ends p none e = with_comment-Ends p e _ refl
    with_source-Ends p (some code) e = untouched

    with_task-Ends :
        by.candidate.candidate_status ≡ proposed
        → (o : Option CandidateReviewTask)
        → Ends (with_task call by.decision by.reviewer by.candidate o before)
    unfolding with_task
    with_task-Ends p none = untouched
    with_task-Ends p (some task) = with_source-Ends p _ refl

    is_replay-true :
        is_replay by.decision by.candidate ≡ true
        → by.candidate.candidate_status ≡ decision_to_status by.decision
    unfolding is_replay
    is_replay-true e = ground (arith, e)

    settled_already-Ends : Ends (settled_already call by.decision by.candidate before)
    unfolding settled_already
    settled_already-Ends =
        if_both Ends (is_replay by.decision by.candidate) _ _
          (λ e. inr (record {
            by = by;
            same_decision = is_replay-true e;
            replay = refl;
            kept = record {
              in_committed = record {
                same_candidates = refl;
                same_tasks = refl;
                same_requirements = refl;
              };
              at_rest = refl;
              in_working = record {
                same_candidates = refl;
                same_tasks = refl;
                same_requirements = refl;
              };
            };
          }))
          (λ _. record { same_candidates = refl; same_tasks = refl; same_requirements = refl })

  is_proposed-true : {s : CandidateStatus} → is_proposed_status s ≡ true → s ≡ proposed
  is_proposed-true {s} e = ground (arith, e)

  module _ (d : Decision) (named : decision_named call.decision ≡ some d) (reviewer : User)
      (authorized : require_requirement_reviewer before.working call.reviewer_id call.org_id
        ≡ returned reviewer) where
    with_candidate-Ends :
        (o : Option RequirementCandidate)
        → candidate_now call before ≡ o
        → Ends (with_candidate call d reviewer o before)
    unfolding with_candidate
    with_candidate-Ends none e = untouched
    with_candidate-Ends (some c) e =
        let by : Authorized call before = record {
          decision = d;
          named = named;
          reviewer = reviewer;
          authorized = authorized;
          candidate = c;
          found_candidate = e;
        } in
        if_both Ends (is_proposed_status c.candidate_status) _ _
          (λ p. with_task-Ends by (is_proposed-true p) _) (λ _. settled_already-Ends by)

  guarded-Ending : (r : Outcome ReviewResult × Store) → Ends r → Ending call before (guarded r)
  unfolding guarded
  guarded-Ending (returned r, after) h = h
  guarded-Ending (raised e, after) h = record { in_committed = h; in_working = h; at_rest = refl }

  with_reviewer-Ending :
      (d : Decision)
      → decision_named call.decision ≡ some d
      → (o : Outcome User)
      → require_requirement_reviewer before.working call.reviewer_id call.org_id ≡ o
      → Ending call before (with_reviewer call d o before)
  unfolding with_reviewer
  with_reviewer-Ending d n (returned reviewer) e =
      guarded-Ending _ (with_candidate-Ends d n reviewer e _ refl)
  with_reviewer-Ending d n (raised err) e = record {
    in_committed = logged _;
    in_working = logged _;
    at_rest = refl;
  }

  with_decision-Ending :
      (o : Option Decision)
      → decision_named call.decision ≡ o
      → Ending call before (with_decision call o before)
  unfolding with_decision
  with_decision-Ending none e = record {
    in_committed = untouched;
    in_working = SameRows-refl before.working;
    at_rest = fresh;
  }
  with_decision-Ending (some d) e = with_reviewer-Ending d e _ refl

  -- A review on a session without pending changes is all or nothing. If it returns, an authorized
  -- reviewer of the organization decided about a candidate that was still PROPOSED and whose source
  -- still held, and committed are the status of the decision, the reviewer, the comment and the time on
  -- that candidate alone, with its texts as before; for APPROVE one requirement with the candidate's text,
  -- for EDIT one with the stripped NFC form of the edited text, for REJECT none; and one audit event
  -- that names the decision, the candidate and the reviewer; or the same decision had been taken before and
  -- candidates, review tasks and requirements are as they were. If it raises, every candidate, review
  -- task and requirement is as it was.
  pub review_requirement_candidate-Ending :
      Ending call before (review_requirement_candidate call before)
  unfolding review_requirement_candidate
  review_requirement_candidate-Ending = with_decision-Ending _ refl
