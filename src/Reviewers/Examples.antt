-- ===== src/Reviewers/Examples.antt =====
-- Tests of app/cli/requirement_reviewer.py, and its theorem at a concrete input.
use rfp.Extraction.World.{strip}
use rfp.Prelude.{[], false, refl, same_text, true, ◌==◌, ◌∷◌, ◌≡◌}
use rfp.Reviewers.{
  Account, Command, Directory, ReviewerOps, already_revoked, command_error, dry_run,
  has_organization, matching, reported, result_granted, scoped_accounts, set_capability,
  write_capability,
}
use rfp.Reviewers.Settles.{Settled, set_capability-Settled}

abbrev plain_ops : ReviewerOps
plain_ops = record {
  chars = record {
    is_space = λ c. c == 0x20;
    nfc = λ chars. chars;
    sha256 = λ chars. "h";
    show_id = λ n. n ∷ [];
    show_number = λ n. n ∷ [];
    code_points = λ s. [];
  };
  lowered = λ chars. chars;
}

abbrev alice : Account
alice = record { account_id = 1; organization_id = 7; email = 0x61 ∷ []; can_review = false }

-- A user of another organization with the same address.
abbrev other_alice : Account
other_alice = record { account_id = 2; organization_id = 8; email = 0x61 ∷ []; can_review = false }

abbrev two_users : Directory
two_users = record { organizations = 7 ∷ 8 ∷ []; accounts = other_alice ∷ alice ∷ []; events = [] }

-- Grant the capability to " a" of organization 7, for the reason "r ".
abbrev grant_alice : Command
grant_alice = record {
  email = 0x20 ∷ 0x61 ∷ [];
  organization_id = 7;
  grant = true;
  reason = 0x72 ∷ 0x20 ∷ [];
  confirm = true;
}

abbrev granted_users : Directory
granted_users = record {
  organizations = 7 ∷ 8 ∷ [];
  accounts = other_alice ∷ record alice { can_review = true } ∷ [];
  events =
      record { organization_id = 7; granted_now = true; entity_id = 1; reason = 0x72 ∷ [] } ∷ [];
}

grants :
    (set_capability plain_ops two_users grant_alice
      ≡ reported (record alice { can_review = true }) result_granted granted_users)
    × (set_capability plain_ops two_users (record grant_alice { confirm = false })
        ≡ reported alice dry_run two_users)
    × (set_capability plain_ops two_users (record grant_alice { grant = false })
        ≡ reported alice already_revoked two_users)
    × (set_capability plain_ops two_users (record grant_alice { reason = 0x20 ∷ [] })
        ≡ command_error "A non-empty --reason is required.")
    × (set_capability plain_ops two_users (record grant_alice { organization_id = 9 })
        ≡ command_error "No such organization.")
unfolding set_capability strip has_organization matching scoped_accounts same_text write_capability
grants = (refl, refl, refl, refl, refl)

set_capability-Settled_example :
    Settled plain_ops two_users grant_alice (set_capability plain_ops two_users grant_alice)
set_capability-Settled_example = set_capability-Settled plain_ops two_users grant_alice
