-- ===== src/Review/Effects.antt =====
-- That the rows which a decision writes (app/services/candidate_review.py) are the ones it should write.
use rfp.Database.{Outcome, raised, returned}
use rfp.Extraction.Store.{update_with}
use rfp.Extraction.World.{Requirement, RequirementCandidate, User, strip}
use rfp.Prelude.{
  List, Option, Text, [], ap, arith, if_both, inl, inr, none, refl, some, sym, ℕ, ◌==◌, ◌∙◌, ◌∷◌,
  ◌≡◌, ◌≢◌, ◌⊎◌,
}
use rfp.Review.Checks.{
  Decision, ReviewCall, approve, decision_to_audit, decision_to_status, edit, reject,
}
use rfp.Review.Outcomes.{ActionFor, CandidatesFor, DecidedRow, RequirementsFor, StatusFor}
use rfp.Review.Words.{TextVerdict, normalize_reviewer_text-TextVerdict}
use rfp.Review.Write.{
  Wording, added, decided, edit_wording, id_of, promoted, requirement_of, wording,
}

abbrev final_of : Outcome Wording → Text
final_of (returned w) = w.final
final_of (raised e) = []

-- What the wording of an edit is.
edit_wording-EditText :
    (call : ReviewCall) (words : Wording) (raw : Text) (o : Outcome Text)
    → TextVerdict call.ops raw o
    → (elim o [
      | returned t ↦ returned (record { reviewed = some t; final = t })
      | raised e ↦ raised e
    ])
      ≡ returned words
    → words.final ≡ strip call.ops (call.ops.nfc raw)
edit_wording-EditText call words raw (returned t) v e = sym (ap final_of e) ∙ v.0
edit_wording-EditText call words raw (raised err) v e = absurd (ground (arith, e))

edit_text :
    (call : ReviewCall) (words : Wording) (o : Option Text)
    → edit_wording call.ops o ≡ returned words
    → (raw : Text) × (o ≡ some raw) × (words.final ≡ strip call.ops (call.ops.nfc raw))
unfolding edit_wording
edit_text call words none e = absurd (ground (arith, e))
edit_text call words (some raw) e = (
  raw,
  refl,
  edit_wording-EditText call words raw _ (normalize_reviewer_text-TextVerdict call.ops raw) e,
)

pub promoted-RequirementsFor :
    (call : ReviewCall) (d : Decision) (c : RequirementCandidate) (words : Wording)
    (old : List Requirement)
    → wording call.ops d c call.edited_text ≡ returned words
    → RequirementsFor call d c old
        (added (promoted call d c words) old)
        (id_of (promoted call d c words))
unfolding promoted requirement_of wording
promoted-RequirementsFor call approve c words old e =
    (requirement_of call c words, refl, refl, refl, refl, refl, sym (ap final_of e))
promoted-RequirementsFor call edit c words old e =
    let (raw, given, is_final) = edit_text call words call.edited_text e in
    (raw, given, (requirement_of call c words, refl, refl, refl, refl, refl, is_final))
promoted-RequirementsFor call reject c words old e = (refl, refl)

decided-DecidedRow :
    (call : ReviewCall) (d : Decision) (reviewer : User) (comment : Option Text) (words : Wording)
    (c : RequirementCandidate)
    → DecidedRow call d reviewer comment c (decided call d reviewer comment words c)
unfolding decided
decided-DecidedRow call d reviewer comment words c = record {
  status_for = status_of d;
  same_id = refl;
  text_kept = refl;
  same_evidence = refl;
  same_document = refl;
  reviewer_kept = refl;
  comment_kept = refl;
  time_kept = refl;
}
  where
    status_of : (e : Decision) → StatusFor e (decision_to_status e)
    status_of approve = refl
    status_of edit = refl
    status_of reject = refl

pub action_of : (d : Decision) → ActionFor d (decision_to_audit d)
action_of approve = refl
action_of edit = refl
action_of reject = refl

pub update-CandidatesFor :
    (call : ReviewCall) (d : Decision) (reviewer : User) (comment : Option Text) (words : Wording)
    (id : ℕ) (candidates : List RequirementCandidate)
    → CandidatesFor call d reviewer comment id candidates
        (update_with (λ k. k.id == id) (decided call d reviewer comment words) candidates)
unfolding update_with
update-CandidatesFor call d reviewer comment words id [] = tt
update-CandidatesFor call d reviewer comment words id (c ∷ rest) = (
  if_both
      (λ (new : RequirementCandidate).
        ((c.id ≡ id) × DecidedRow call d reviewer comment c new) ⊎ ((c.id ≢ id) × (new ≡ c)))
      (c.id == id) _ _
      (λ e. inl (ground (arith, e), decided-DecidedRow call d reviewer comment words c))
      (λ n. inr ((λ e. ground (arith, n, e)), refl)),
  update-CandidatesFor call d reviewer comment words id rest,
)
