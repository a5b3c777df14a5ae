-- ===== src/Reviewers.antt =====
-- app/cli/requirement_reviewer.py: the operator's command that grants and revokes the capability to
-- review requirements. `lowered` is str.lower.
pub mod Target
pub mod Settles
mod Examples
use rfp.Extraction.World.{TextOps, is_empty, strip}
use rfp.Prelude.{
  Bool, List, String, Text, [], false, if◌then◌else◌, map, not, same_text, true, ℕ, ◌&&◌, ◌++◌,
  ◌==◌, ◌||◌, ◌∷◌,
}

pub record ReviewerOps : Type 0 where
  pub chars : TextOps
  pub lowered : Text → Text

-- The fields of User that the command reads.
pub record Account : Type 0 where
  pub account_id : ℕ
  pub organization_id : ℕ
  pub email : Text
  pub can_review : Bool

-- An audit event, without the fields that are the same in each of them.
pub record CapabilityEvent : Type 0 where
  pub organization_id : ℕ
  pub granted_now : Bool
  pub entity_id : ℕ
  pub reason : Text

pub record Directory : Type 0 where
  pub organizations : List ℕ
  pub accounts : List Account
  pub events : List CapabilityEvent

pub data CommandResult : Type 0 where
  result_granted result_revoked already_granted already_revoked dry_run : CommandResult

-- CapabilityCommandError by its message, or the user with the result.
pub data CommandAnswer : Type 0 where
  command_error : String → CommandAnswer
  reported : Account → CommandResult → Directory → CommandAnswer

unfoldable pub has_organization : List ℕ → ℕ → Bool
has_organization [] id = false
has_organization (o ∷ rest) id = o == id || has_organization rest id

-- Of the organization, and with this address after strip and lower.
abbrev pub is_scoped : ReviewerOps → ℕ → Text → Account → Bool
is_scoped ops organization_id normalized a =
    a.organization_id == organization_id
    && same_text (ops.lowered (strip ops.chars a.email)) normalized

unfoldable pub scoped_accounts : ReviewerOps → ℕ → Text → List Account → List Account
scoped_accounts ops organization_id normalized [] = []
scoped_accounts ops organization_id normalized (a ∷ rest) =
    let others = scoped_accounts ops organization_id normalized rest in
    if is_scoped ops organization_id normalized a then a ∷ others else others

unfoldable pub matching : ReviewerOps → Directory → Text → ℕ → List Account
matching ops db email organization_id =
    scoped_accounts ops organization_id (ops.lowered (strip ops.chars email)) db.accounts

abbrev pub already : Bool → CommandResult
already grant = if grant then already_granted else already_revoked

abbrev pub changed_result : Bool → CommandResult
changed_result grant = if grant then result_granted else result_revoked

-- The write to the row with this id.
abbrev pub with_capability : ℕ → Bool → Account → Account
with_capability id grant a = record a {
  can_review = if a.account_id == id then grant else a.can_review;
}

abbrev pub capability_event : ℕ → Account → Bool → Text → CapabilityEvent
capability_event organization_id user grant reason = record {
  organization_id = organization_id;
  granted_now = grant;
  entity_id = user.account_id;
  reason = reason;
}

unfoldable pub write_capability : Directory → ℕ → Account → Bool → Text → Directory
write_capability db organization_id user grant reason = record db {
  accounts = map (with_capability user.account_id grant) db.accounts;
  events = db.events ++ (capability_event organization_id user grant reason ∷ []);
}

-- The command, apart from what it does to the directory.
pub record Command : Type 0 where
  pub email : Text
  pub organization_id : ℕ
  pub grant : Bool
  pub reason : Text
  pub confirm : Bool

abbrev pub same_bool : Bool → Bool → Bool
same_bool true b = b
same_bool false b = not b

-- Once the user is known.
abbrev pub apply_change : ReviewerOps → Directory → Command → Account → CommandAnswer
apply_change ops db command user =
    if same_bool user.can_review command.grant
    then reported user (already command.grant) db
    else if not command.confirm
    then reported user dry_run db
    else reported (with_capability user.account_id command.grant user)
        (changed_result command.grant)
        (write_capability db command.organization_id user command.grant
          (strip ops.chars command.reason))

abbrev pub change_only : ReviewerOps → Directory → Command → List Account → CommandAnswer
change_only ops db command [] =
    command_error
      "No matching user in that organization. This command never creates users or moves them between organizations."
change_only ops db command (user ∷ []) = apply_change ops db command user
change_only ops db command (user ∷ (_ ∷ _)) =
    command_error "Multiple users match in this organization; refusing to guess."

unfoldable pub set_capability : ReviewerOps → Directory → Command → CommandAnswer
set_capability ops db command =
    if is_empty (strip ops.chars command.reason)
    then command_error "A non-empty --reason is required."
    else if not (has_organization db.organizations command.organization_id)
    then command_error "No such organization."
    else change_only ops db command (matching ops db command.email command.organization_id)
