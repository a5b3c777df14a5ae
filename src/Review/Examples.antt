-- ===== src/Review/Examples.antt =====
-- Tests of app/services/candidate_review.py, and its theorems at concrete inputs.
use rfp.Database.{raised, returned, reviewer_authorization_error}
use rfp.Extraction.{page_by_seq}
use rfp.Extraction.Plain.{find_unsafe_content-IsPlainText}
use rfp.Extraction.Samples.{
  rows_of, sample_candidate, sample_ops, sample_page, sample_run, sample_scope, sample_task,
  sample_user, store_of,
}
use rfp.Extraction.Sound.{IsSound}
use rfp.Extraction.Store.{Store, first_with, update_with}
use rfp.Extraction.World.{
  CandidateStatus-discrete, approved, find_unsafe_content, hash_matches, is_disallowed, strip,
}
use rfp.Prelude.{
  [], any_char, arith, false, none, refl, same_text, slice, some, true, ◌==◌, ◌∷◌, ◌≡◌,
}
use rfp.Review.{review_requirement_candidate}
use rfp.Review.Checks.{
  ReviewCall, decision_named, normalize_comment, normalize_reviewer_text,
  require_requirement_reviewer, revalidate_source,
}
use rfp.Review.Decided.{review_requirement_candidate-Ending}
use rfp.Review.Once.{IsConsistent, Keeps, promotions, reviews, reviews-Keeps}
use rfp.Review.Outcomes.{Ending}
use rfp.Review.Provenance.{revalidate_source-IsSound}
use rfp.Review.Words.{
  TextVerdict, normalize_reviewer_text-TextVerdict, require_requirement_reviewer-returned,
}
use rfp.Review.Write.{is_source, promoted, requirement_of, wording}
use rfp.Samples.{sample_project}

abbrev approve_call : ReviewCall
approve_call = record {
  ops = sample_ops;
  now = 50;
  fresh_id = 41;
  candidate_id = 31;
  reviewer_id = 3;
  org_id = 7;
  decision = "APPROVE";
  edited_text = none;
  reviewer_comment = none;
}

abbrev open_review : Store
open_review = store_of (rows_of (sample_candidate ∷ []) (sample_task ∷ []))

-- An approval creates the requirement; the same approval again reports it and creates nothing.
approves :
    ((review_requirement_candidate approve_call open_review).0
      ≡ returned (record {
        candidate_id = 31;
        candidate_status = approved;
        requirement_id = some 41;
        result_code = "REVIEW_OK";
        idempotent_replay = false;
      }))
    × ((review_requirement_candidate approve_call
          (review_requirement_candidate approve_call open_review).1).0
        ≡ returned (record {
          candidate_id = 31;
          candidate_status = approved;
          requirement_id = some 41;
          result_code = "REVIEW_ALREADY_DECIDED";
          idempotent_replay = true;
        }))
unfolding review_requirement_candidate decision_named require_requirement_reviewer first_with
    revalidate_source hash_matches same_text slice normalize_comment wording promoted requirement_of
    update_with CandidateStatus-discrete is_source
approves = (refl, refl)

-- A member of another organization learns nothing about the candidate.
stranger :
    (review_requirement_candidate (record approve_call { org_id = 8 }) open_review).0
    ≡ raised (reviewer_authorization_error 404 "REVIEW_AUTH_TENANT_MISMATCH")
unfolding review_requirement_candidate decision_named require_requirement_reviewer first_with
stranger = refl

review_requirement_candidate-Ending_example :
    Ending approve_call open_review (review_requirement_candidate approve_call open_review)
review_requirement_candidate-Ending_example =
    review_requirement_candidate-Ending approve_call open_review refl

normalize_reviewer_text-TextVerdict_example :
    TextVerdict sample_ops (32 ∷ 65 ∷ []) (normalize_reviewer_text sample_ops (32 ∷ 65 ∷ []))
normalize_reviewer_text-TextVerdict_example =
    normalize_reviewer_text-TextVerdict sample_ops (32 ∷ 65 ∷ [])

require_requirement_reviewer-returned_example :
    (first_with (λ m. m.id == 3) (sample_user ∷ []) ≡ some sample_user)
    × (true ≡ true)
    × (sample_user.organization_id ≡ 7)
    × (true ≡ true)
unfolding require_requirement_reviewer first_with
require_requirement_reviewer-returned_example =
    require_requirement_reviewer-returned (rows_of [] []) 3 7 sample_user refl

sample_sound : IsSound sample_scope (sample_page ∷ []) sample_candidate
unfolding page_by_seq slice strip find_unsafe_content any_char is_disallowed
sample_sound = record {
  page = sample_page;
  sequence = 1;
  found_page = refl;
  page_id = refl;
  page_hash = refl;
  addressable = refl;
  quoted = refl;
  hashed = refl;
  evidence_present = refl;
  evidence_bounded = refl;
  text_bounded = refl;
  evidence_word = refl;
  text_word = refl;
  text_plain = find_unsafe_content-IsPlainText sample_candidate.normalized_requirement_text refl;
  evidence_plain = find_unsafe_content-IsPlainText sample_candidate.evidence_text refl;
  is_proposed = refl;
  of_run = refl;
  of_document = refl;
  of_organization = refl;
  of_project = refl;
}

revalidate_source-IsSound_example :
    revalidate_source sample_ops (rows_of (sample_candidate ∷ []) []) sample_candidate ≡ none
unfolding sample_sound first_with hash_matches
revalidate_source-IsSound_example =
    revalidate_source-IsSound sample_scope (sample_page ∷ []) sample_candidate
      (rows_of (sample_candidate ∷ []) []) sample_sound sample_project sample_run refl refl refl
      refl refl refl refl refl

sample-IsConsistent : IsConsistent open_review
unfolding promotions
sample-IsConsistent = record {
  fresh = refl;
  unique = record { at_most_once = λ n. omega arith };
  distinct = (tt, tt);
}

-- Two approvals and a rejection of one candidate.
reviews-Keeps_example : Keeps open_review (
    reviews
      (approve_call ∷ approve_call ∷ record approve_call { decision = "REJECT" } ∷ [])
      open_review)
reviews-Keeps_example =
    reviews-Keeps (approve_call ∷ approve_call ∷ record approve_call { decision = "REJECT" } ∷ [])
      open_review sample-IsConsistent
