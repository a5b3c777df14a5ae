-- ===== src/Reviewers/Settles.antt =====
-- What a command of app/cli/requirement_reviewer.py leaves behind.
use mathlib.Core.Path.{subst}
use rfp.Extraction.World.{is_empty, strip}
use rfp.Prelude.{
  Bool, List, Text, [], ap, arith, false, if_both, if◌then◌else◌, map, not, refl, true, ℕ, ◌==◌,
  ◌∙◌, ◌∷◌, ◌≡◌,
}
use rfp.Reviewers.{
  Account, Command, CommandAnswer, Directory, ReviewerOps, already, apply_change, change_only,
  command_error, has_organization, is_scoped, matching, reported, same_bool, scoped_accounts,
  set_capability, with_capability, write_capability,
}
use rfp.Reviewers.Target.{OnlyTarget, matching-OnlyTarget}

scoped_accounts-map :
    (ops : ReviewerOps) (organization_id : ℕ) (normalized : Text) (id : ℕ) (grant : Bool)
    (accounts : List Account)
    → scoped_accounts ops organization_id normalized (map (with_capability id grant) accounts)
      ≡ map (with_capability id grant) (scoped_accounts ops organization_id normalized accounts)
unfolding scoped_accounts
scoped_accounts-map ops organization_id normalized id grant [] = refl
scoped_accounts-map ops organization_id normalized id grant (a ∷ rest) =
    let later = scoped_accounts-map ops organization_id normalized id grant rest in
    if_both
      (λ (l : List Account).
        (if is_scoped ops organization_id normalized a
          then with_capability id grant a
            ∷ scoped_accounts ops organization_id normalized (map (with_capability id grant) rest)
          else scoped_accounts ops organization_id normalized (map (with_capability id grant) rest))
        ≡ map (with_capability id grant) l)
      (is_scoped ops organization_id normalized a) _ _
      (λ e. rw e (ap (λ (l : List Account). with_capability id grant a ∷ l) later))
      (λ e. rw e later)

same_bool_refl : (b : Bool) → same_bool b b ≡ true
same_bool_refl true = refl
same_bool_refl false = refl

same_bool-equal : (a b : Bool) → same_bool a b ≡ true → a ≡ b
same_bool-equal true true e = refl
same_bool-equal true false e = ground (arith, e)
same_bool-equal false true e = ground (arith, e)
same_bool-equal false false e = refl

has_capability :
    (grant : Bool) (user : Account)
    → (with_capability user.account_id grant user).can_review ≡ grant
has_capability grant user =
    let same_id : (user.account_id == user.account_id) ≡ true = ground arith in rw same_id refl

-- What a command has done, without and with a confirmation.
abbrev pub Effect : ReviewerOps → Directory → Command → Account → Directory → Bool → Type 0
Effect ops db command user after false = after ≡ db
Effect ops db command user after true =
    (user.can_review ≡ command.grant)
    × (set_capability ops after command ≡ reported user (already command.grant) after)

-- What holds of a command and its answer.
abbrev pub Settled : ReviewerOps → Directory → Command → CommandAnswer → Type 0
Settled ops db command (command_error message) = Unit
Settled ops db command (reported user result after) =
    OnlyTarget ops command.organization_id command.email after.accounts user
    × Effect ops db command user after command.confirm

unchanged-Effect :
    (ops : ReviewerOps) (db : Directory) (command : Command) (user : Account) (confirm : Bool)
    → user.can_review ≡ command.grant
    → set_capability ops db command ≡ reported user (already command.grant) db
    → Effect ops db command user db confirm
unchanged-Effect ops db command user false c r = refl
unchanged-Effect ops db command user true c r = (c, r)

confirmed : (confirm : Bool) → not confirm ≡ false → true ≡ confirm
confirmed true e = refl
confirmed false e = ground (arith, e)

unconfirmed : (confirm : Bool) → not confirm ≡ true → false ≡ confirm
unconfirmed true e = ground (arith, e)
unconfirmed false e = refl

module _ (ops : ReviewerOps) (command : Command)
    (has_reason : is_empty (strip ops.chars command.reason) ≡ false) where
  repeats :
      (db : Directory) (user : Account)
      → not (has_organization db.organizations command.organization_id) ≡ false
      → matching ops db command.email command.organization_id ≡ user ∷ []
      → user.can_review ≡ command.grant
      → set_capability ops db command ≡ reported user (already command.grant) db
  unfolding set_capability
  repeats db user o m c =
      let same : same_bool user.can_review command.grant ≡ true =
        ap (λ (b : Bool). same_bool b command.grant) c ∙ same_bool_refl command.grant in
      rw has_reason (rw o (rw m (rw same refl)))

  matching-written :
      (db : Directory) (user : Account)
      → matching ops db command.email command.organization_id ≡ user ∷ []
      → matching ops
          (write_capability db command.organization_id user command.grant
            (strip ops.chars command.reason))
          command.email
          command.organization_id
        ≡ with_capability user.account_id command.grant user ∷ []
  unfolding matching write_capability
  matching-written db user m =
      scoped_accounts-map ops command.organization_id (ops.lowered (strip ops.chars command.email))
        user.account_id command.grant db.accounts
      ∙ ap (map (with_capability user.account_id command.grant)) m

  apply_change-Settled :
      (db : Directory) (user : Account)
      → not (has_organization db.organizations command.organization_id) ≡ false
      → matching ops db command.email command.organization_id ≡ user ∷ []
      → Settled ops db command (apply_change ops db command user)
  unfolding write_capability
  apply_change-Settled db user o m =
      if_both (Settled ops db command) (same_bool user.can_review command.grant) _ _
        (λ e.
          let c = same_bool-equal user.can_review command.grant e in
          (
            matching-OnlyTarget ops db _ _ user m,
            unchanged-Effect ops db command user command.confirm c (repeats db user o m c),
          ))
        (λ _.
          if_both (Settled ops db command) (not command.confirm) _ _
            (λ e. (
              matching-OnlyTarget ops db _ _ user m,
              subst (Effect ops db command user db) (unconfirmed command.confirm e) refl,
            ))
            (λ e.
              let m' = matching-written db user m in
              let c = has_capability command.grant user in
              (
                matching-OnlyTarget ops _ _ _ _ m',
                subst (Effect ops db command _ _) (confirmed command.confirm e)
                    (c, repeats _ _ o m' c),
              )))

  change_only-Settled :
      (db : Directory) (matches : List Account)
      → not (has_organization db.organizations command.organization_id) ≡ false
      → matching ops db command.email command.organization_id ≡ matches
      → Settled ops db command (change_only ops db command matches)
  change_only-Settled db [] o m = tt
  change_only-Settled db (user ∷ []) o m = apply_change-Settled db user o m
  change_only-Settled db (user ∷ (_ ∷ _)) o m = tt

-- Every answer of the command that is not an error names the only account of the organization with the
-- address, as it is then. Without a confirmation nothing is written. With one, the user has the capability exactly if it
-- was to be granted, and the same command once more writes nothing, no audit event either, and reports that
-- this is so already.
pub set_capability-Settled :
    (ops : ReviewerOps) (db : Directory) (command : Command)
    → Settled ops db command (set_capability ops db command)
unfolding set_capability
set_capability-Settled ops db command =
    if_both (Settled ops db command) (is_empty (strip ops.chars command.reason)) _ _ (λ _. tt)
      (λ r.
        if_both (Settled ops db command)
          (not (has_organization db.organizations command.organization_id)) _ _ (λ _. tt)
          (λ o.
            change_only-Settled ops command r db
              (matching ops db command.email command.organization_id) o refl))
