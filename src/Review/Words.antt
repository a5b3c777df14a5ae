-- ===== src/Review/Words.antt =====
-- What the reviewer's words are when they are accepted, and when they are not.
use rfp.Database.{Outcome, candidate_review_error, raised, returned}
use rfp.Extraction.Plain.{
  IsPlainText, find_unsafe_content-IsPlainText, find_unsafe_content-not_plain,
}
use rfp.Extraction.Store.{Rows, first_with}
use rfp.Extraction.World.{TextOps, User, find_unsafe_content, is_empty, strip}
use rfp.Prelude.{
  Option, Text, arith, false, if_both, inl, inr, is_some, length, ltb, member, none, refl, some,
  true, ℕ, ◌<◌, ◌==◌, ◌≡◌, ◌≤◌, ◌⊎◌,
}
use rfp.Review.Checks.{
  checked_reviewer_text, max_reviewer_edited_text_len, normalize_reviewer_text,
  require_requirement_reviewer, reviewer_checked,
}

abbrev pub TextVerdict : TextOps → Text → Outcome Text → Type 0
TextVerdict ops raw (returned t) =
    (t ≡ strip ops (ops.nfc raw))
    × (is_empty t ≡ false)
    × (length t ≤ max_reviewer_edited_text_len)
    × IsPlainText t
TextVerdict ops raw (raised e) =
    let t = strip ops (ops.nfc raw) in
    ((e ≡ candidate_review_error "REVIEW_EDIT_TEXT_REQUIRED") × (is_empty t ≡ true))
    ⊎ ((e ≡ candidate_review_error "REVIEW_EDIT_TEXT_INVALID")
        × ((max_reviewer_edited_text_len < length t) ⊎ (¬ IsPlainText t)))

is_some-none : {A : Type 0} (o : Option A) → is_some o ≡ false → o ≡ none
is_some-none none e = refl
is_some-none (some a) e = ground arith

-- Reviewer text is accepted exactly as its stripped NFC form, when that is not empty, at most 2000
-- characters long and without control characters but tabs and line ends; otherwise the code names what was wrong.
pub normalize_reviewer_text-TextVerdict :
    (ops : TextOps) (raw : Text) → TextVerdict ops raw (normalize_reviewer_text ops raw)
unfolding normalize_reviewer_text checked_reviewer_text
normalize_reviewer_text-TextVerdict ops raw =
    let t = strip ops (ops.nfc raw) in
    if_both (TextVerdict ops raw) (is_empty t) _ _ (λ e. inl (refl, e))
      (λ present.
        if_both (TextVerdict ops raw) (ltb max_reviewer_edited_text_len (length t)) _ _
          (λ e. inr (refl, inl (ground (arith, e))))
          (λ short.
            if_both (TextVerdict ops raw) (is_some (find_unsafe_content t)) _ _
              (λ e. inr (refl, inr (find_unsafe_content-not_plain t e)))
              (λ e. (
                refl,
                present,
                ground (arith, short),
                find_unsafe_content-IsPlainText t (is_some-none (find_unsafe_content t) e),
              ))))

reviewer_checked-returned :
    (org_id : ℕ) (user : User) (o : Option User)
    → reviewer_checked org_id o ≡ returned user
    → (o ≡ some user)
      × (user.is_active ≡ true)
      × (user.organization_id ≡ org_id)
      × (user.can_review_requirements ≡ true)
unfolding reviewer_checked
reviewer_checked-returned org_id user none e = ground arith
reviewer_checked-returned org_id user (some member) e = ground (arith, e)

-- The authority boundary: only an active member of the organization who holds the review capability
-- is let through, and it is the user that was asked about.
pub require_requirement_reviewer-returned :
    (rows : Rows) (user_id org_id : ℕ) (user : User)
    → require_requirement_reviewer rows user_id org_id ≡ returned user
    → (first_with (λ u. u.id == user_id) rows.users ≡ some user)
      × (user.is_active ≡ true)
      × (user.organization_id ≡ org_id)
      × (user.can_review_requirements ≡ true)
unfolding require_requirement_reviewer
require_requirement_reviewer-returned rows user_id org_id user e =
    reviewer_checked-returned org_id user _ e
