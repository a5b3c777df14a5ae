-- ===== src/Throttle.antt =====
-- app/core/sessions/throttling.py: the login limits over the in-memory counters, whose fixed windows
-- are those of the Redis script. The store is reachable here; an unreachable one raises.
pub mod Cooldown
pub mod Refusal
mod Examples
use rfp.Prelude.{
  Bool, Option, String, false, if◌then◌else◌, leb, none, some, str_eq, true, ℕ, ◌&&◌, ◌+◌,
}

-- The keys that `_keys` prints. The account component is a hexadecimal digest, so that different
-- keys are printed differently.
pub data Key : Type 0 where
  ip_key : String → Key
  account_ip_key : String → String → Key
  account_key : String → Key

unfoldable pub same_key : Key → Key → Bool
same_key (ip_key a) (ip_key b) = str_eq a b
same_key (account_ip_key a i) (account_ip_key b j) = str_eq a b && str_eq i j
same_key (account_key a) (account_key b) = str_eq a b
same_key _ _ = false

pub record Entry : Type 0 where
  pub count : ℕ
  pub expires_at : ℕ

-- `_counts`
abbrev pub Counts : Type 0
Counts = Key → Option Entry

unfoldable pub store_entry : Key → Option Entry → Counts → Counts
store_entry key entry counts other_key = if same_key key other_key then entry else counts other_key

live_count : ℕ → Key → Option Entry → Counts → ℕ × Counts
live_count now key none counts = (0, counts)
live_count now key (some entry) counts =
    if leb entry.expires_at now then (0, store_entry key none counts) else (entry.count, counts)

unfoldable pub get_count : ℕ → Key → Counts → ℕ × Counts
unfolding live_count
get_count now key counts = live_count now key (counts key) counts

unfoldable pub next_entry : ℕ → ℕ → Option Entry → Entry
next_entry now window none = record { count = 1; expires_at = now + window }
next_entry now window (some entry) =
    if leb entry.expires_at now
    then record { count = 1; expires_at = now + window }
    else record { count = entry.count + 1; expires_at = entry.expires_at }

unfoldable pub increment : ℕ → Key → ℕ → Counts → Counts
increment now key window counts = store_entry key (some (next_entry now window (counts key))) counts

unfoldable pub reset : Key → Counts → Counts
reset key counts = store_entry key none counts

-- The settings of `LoginThrottle`, and the HMAC of a normalized email under its secret.
pub record Limits : Type 0 where
  pub account_component : String → String
  pub account_ip_max : ℕ
  pub account_ip_window : ℕ
  pub ip_max : ℕ
  pub ip_window : ℕ
  pub account_max : ℕ
  pub account_window : ℕ
  pub max_cooldown : ℕ

pub record ThrottleDecision : Type 0 where
  pub allowed : Bool
  pub retry_after_seconds : Option ℕ
  pub internal_reason : Option String

abbrev refuse : Limits → String → ThrottleDecision
refuse limits reason = record {
  allowed = false;
  retry_after_seconds = some limits.max_cooldown;
  internal_reason = some reason;
}

abbrev accept_login : ThrottleDecision
accept_login = record { allowed = true; retry_after_seconds = none; internal_reason = none }

-- One limit of `check`, and what is asked if it is not reached.
limit :
    ℕ
    → Limits
    → String
    → ℕ × Counts
    → (Counts → ThrottleDecision × Counts)
    → ThrottleDecision × Counts
limit maximum limits reason (count, counts) ask =
    let asked = ask counts in if leb maximum count then (refuse limits reason, counts) else asked

let_in : Counts → ThrottleDecision × Counts
let_in counts = (accept_login, counts)

by_account : Limits → ℕ → String → Counts → ThrottleDecision × Counts
unfolding limit
by_account limits now account counts =
    limit limits.account_max limits "account" (get_count now (account_key account) counts) let_in

by_account_ip : Limits → ℕ → String → String → Counts → ThrottleDecision × Counts
unfolding limit
by_account_ip limits now account source_ip counts =
    limit limits.account_ip_max limits "account_ip"
      (get_count now (account_ip_key account source_ip) counts) (by_account limits now account)

-- The address is asked first, then the account from this address, then the account.
unfoldable pub check : Limits → ℕ → String → String → Counts → ThrottleDecision × Counts
unfolding limit by_account_ip by_account let_in
check limits now normalized_email source_ip counts =
    limit limits.ip_max limits "ip" (get_count now (ip_key source_ip) counts)
      (by_account_ip limits now (limits.account_component normalized_email) source_ip)

unfoldable pub record_login_failure : Limits → ℕ → String → String → Counts → Counts
record_login_failure limits now normalized_email source_ip counts =
    let account = limits.account_component normalized_email in
    increment now (account_key account) limits.account_window (
      increment now (account_ip_key account source_ip) limits.account_ip_window
        (increment now (ip_key source_ip) limits.ip_window counts))

-- The counter of the source address is kept.
unfoldable pub record_login_success : Limits → String → String → Counts → Counts
record_login_success limits normalized_email source_ip counts =
    let account = limits.account_component normalized_email in
    reset (account_key account) (reset (account_ip_key account source_ip) counts)
