-- ===== src/Reviewers/Target.antt =====
-- Whom a command of app/cli/requirement_reviewer.py is about.
-- An account of the organization whose address is the given one, both stripped and lowered.
use mathlib.Core.Path.{subst}
use rfp.Extraction.World.{strip}
use rfp.Prelude.{
  All, List, Text, [], ap, arith, false, if_both, same_number, same_text, same_text_iff, true, ℕ,
  ◌++◌, ◌==◌, ◌∷◌, ◌≡◌,
}
use rfp.Reviewers.{Account, Directory, ReviewerOps, is_scoped, matching, scoped_accounts}

abbrev pub IsTarget : ReviewerOps → ℕ → Text → Account → Type 0
IsTarget ops organization_id email a =
    (a.organization_id ≡ organization_id)
    × (ops.lowered (strip ops.chars a.email) ≡ ops.lowered (strip ops.chars email))

-- The user is such an account, and the accounts before and behind it are not.
pub record OnlyTarget (ops : ReviewerOps) (organization_id : ℕ) (email : Text)
    (accounts : List Account) (user : Account) : Type 0 where
  pub before : List Account
  pub behind : List Account
  pub split : accounts ≡ before ++ (user ∷ behind)
  pub is_target : IsTarget ops organization_id email user
  pub none_before : All (λ (a : Account). ¬ IsTarget ops organization_id email a) before
  pub none_behind : All (λ (a : Account). ¬ IsTarget ops organization_id email a) behind

module _ (ops : ReviewerOps) (organization_id : ℕ) (email : Text) where
  abbrev lowered_email : Text
  lowered_email = ops.lowered (strip ops.chars email)

  scoped-IsTarget :
      (a : Account)
      → is_scoped ops organization_id lowered_email a ≡ true
      → IsTarget ops organization_id email a
  scoped-IsTarget a e = (
    ground (arith, e),
    (same_text_iff (ops.lowered (strip ops.chars a.email)) lowered_email).0 (ground (arith, e)),
  )

  unscoped :
      (a : Account)
      → is_scoped ops organization_id lowered_email a ≡ false
      → ¬ IsTarget ops organization_id email a
  unscoped a e t =
      let same : same_text (ops.lowered (strip ops.chars a.email)) lowered_email ≡ true =
        (same_text_iff (ops.lowered (strip ops.chars a.email)) lowered_email).1 t.1 in
      let here_too : (a.organization_id == organization_id) ≡ true = same_number t.0 in
      ground (arith, e, same, here_too)

  no-IsTarget :
      (accounts : List Account)
      → scoped_accounts ops organization_id lowered_email accounts ≡ []
      → All (λ (a : Account). ¬ IsTarget ops organization_id email a) accounts
  unfolding scoped_accounts
  no-IsTarget [] = λ e. tt
  no-IsTarget (a ∷ rest) =
      if_both
        (λ (l : List Account).
          l ≡ [] → All (λ (b : Account). ¬ IsTarget ops organization_id email b) (a ∷ rest))
        (is_scoped ops organization_id lowered_email a) _ _ (λ _. λ h. absurd (ground (arith, h)))
        (λ n. λ h. (unscoped a n, no-IsTarget rest h))

  only_target :
      (accounts : List Account) (user : Account)
      → scoped_accounts ops organization_id lowered_email accounts ≡ user ∷ []
      → OnlyTarget ops organization_id email accounts user
  unfolding scoped_accounts
  only_target [] user = λ e. absurd (ground (arith, e))
  only_target (a ∷ rest) user =
      if_both
        (λ (l : List Account). l ≡ user ∷ [] → OnlyTarget ops organization_id email (a ∷ rest) user)
        (is_scoped ops organization_id lowered_email a) _ _
        (λ s. λ h.
          let same : a ≡ user = ground (arith, h) in
          record {
            before = [];
            behind = rest;
            split = ap (λ (x : Account). x ∷ rest) same;
            is_target = subst (IsTarget ops organization_id email) same (scoped-IsTarget a s);
            none_before = tt;
            none_behind = no-IsTarget rest (ground (arith, h));
          })
        (λ n. λ h.
          let later = only_target rest user h in
          record {
            before = a ∷ later.before;
            behind = later.behind;
            split = ap (λ (l : List Account). a ∷ l) later.split;
            is_target = later.is_target;
            none_before = (unscoped a n, later.none_before);
            none_behind = later.none_behind;
          })

pub matching-OnlyTarget :
    (ops : ReviewerOps) (db : Directory) (email : Text) (organization_id : ℕ) (user : Account)
    → matching ops db email organization_id ≡ user ∷ []
    → OnlyTarget ops organization_id email db.accounts user
unfolding matching
matching-OnlyTarget ops db email organization_id user m =
    only_target ops organization_id email db.accounts user m
