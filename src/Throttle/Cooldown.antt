-- ===== src/Throttle/Cooldown.antt =====
-- Why the login limits hold for a while and never for good.
use mathlib.Core.Path.{subst}
use rfp.Ingestion.Routes.{passed}
use rfp.Prelude.{
  All, List, Option, String, [], ap, arith, if_both, leb, max, none, or_else, refl, some, true, ℕ,
  ◌+◌, ◌<◌, ◌∷◌, ◌≡◌, ◌≤◌,
}
use rfp.Throttle.{
  Counts, Entry, Key, Limits, ThrottleDecision, account_ip_key, account_key, by_account,
  by_account_ip, check, get_count, increment, ip_key, let_in, limit, live_count, next_entry,
  record_login_failure, record_login_success, reset, same_key, store_entry,
}

-- Every counter runs out by the given time.
pub record Expires (by : ℕ) (counts : Counts) : Type 0 where
  pub in_time : (key : Key) (entry : Entry) → counts key ≡ some entry → entry.expires_at ≤ by

pub data LoginEvent : Type 0 where
  login_failed : ℕ → String → String → LoginEvent
  login_succeeded : ℕ → String → String → LoginEvent

unfoldable pub login_event : Limits → Counts → LoginEvent → Counts
login_event limits counts (login_failed now email source_ip) =
    record_login_failure limits now email source_ip counts
login_event limits counts (login_succeeded now email source_ip) =
    record_login_success limits email source_ip counts

unfoldable pub login_events : Limits → Counts → List LoginEvent → Counts
login_events limits counts [] = counts
login_events limits counts (e ∷ rest) = login_events limits (login_event limits counts e) rest

abbrev pub time_of : LoginEvent → ℕ
time_of (login_failed now email source_ip) = now
time_of (login_succeeded now email source_ip) = now

-- The longest of the three windows.
abbrev pub longest : Limits → ℕ
longest limits = max limits.ip_window (max limits.account_ip_window limits.account_window)

module _ (by : ℕ) where
  store_entry-Expires :
      (key : Key) (new : Option Entry) (counts : Counts)
      → ((entry : Entry) → new ≡ some entry → entry.expires_at ≤ by)
      → Expires by counts
      → Expires by (store_entry key new counts)
  unfolding store_entry
  store_entry-Expires key new counts f h = record {
    in_time = λ j entry.
        if_both (λ (o : Option Entry). o ≡ some entry → entry.expires_at ≤ by) (same_key key j) new
          (counts j) (λ _. f entry) (λ _. h.in_time j entry);
  }

  next_entry-Expires :
      (now window : ℕ) (o : Option Entry) (entry : Entry)
      → now + window ≤ by
      → ((old : Entry) → o ≡ some old → old.expires_at ≤ by)
      → some (next_entry now window o) ≡ some entry
      → entry.expires_at ≤ by
  unfolding next_entry
  next_entry-Expires now window o entry le old e =
      subst (λ (n : Entry). n.expires_at ≤ by) (ap (λ o. or_else o entry) e) (bounded o old)
    where
      bounded :
          (o : Option Entry)
          → ((old : Entry) → o ≡ some old → old.expires_at ≤ by)
          → (next_entry now window o).expires_at ≤ by
      bounded none old = le
      bounded (some before) old =
          if_both (λ (n : Entry). n.expires_at ≤ by) (leb before.expires_at now) _ _ (λ _. le)
            (λ _. old before refl)

  increment-Expires :
      (now : ℕ) (key : Key) (window : ℕ) (counts : Counts)
      → now + window ≤ by
      → Expires by counts
      → Expires by (increment now key window counts)
  unfolding increment
  increment-Expires now key window counts le h =
      store_entry-Expires key _ counts
        (λ entry e. next_entry-Expires now window (counts key) entry le (h.in_time key) e) h

  reset-Expires : (key : Key) (counts : Counts) → Expires by counts → Expires by (reset key counts)
  unfolding reset
  reset-Expires key counts h =
      store_entry-Expires key none counts (λ entry e. absurd (ground (arith, e))) h

  module _ (limits : Limits) where
    login_event-Expires :
        (e : LoginEvent) (counts : Counts)
        → time_of e + longest limits ≤ by
        → Expires by counts
        → Expires by (login_event limits counts e)
    unfolding login_event record_login_failure record_login_success
    login_event-Expires (login_failed now email source_ip) counts le h =
        increment-Expires now _ limits.account_window _ (omega (arith, le)) (
          increment-Expires now _ limits.account_ip_window _ (omega (arith, le))
            (increment-Expires now _ limits.ip_window counts (omega (arith, le)) h))
    login_event-Expires (login_succeeded now email source_ip) counts le h =
        reset-Expires _ _ (reset-Expires _ counts h)

    login_events-Expires :
        (events : List LoginEvent) (counts : Counts)
        → All (λ e. time_of e + longest limits ≤ by) events
        → Expires by counts
        → Expires by (login_events limits counts events)
    unfolding login_events
    login_events-Expires [] counts le h = h
    login_events-Expires (e ∷ rest) counts le h =
        login_events-Expires rest (login_event limits counts e) le.1
          (login_event-Expires e counts le.0 h)

  -- Once every counter has run out, a counter reads 0, and the others have still run out.
  live_count-expired :
      (now : ℕ) (key : Key) (o : Option Entry) (counts : Counts)
      → by ≤ now
      → ((entry : Entry) → o ≡ some entry → entry.expires_at ≤ by)
      → Expires by counts
      → ((live_count now key o counts).0 ≡ 0) × Expires by (live_count now key o counts).1
  unfolding live_count
  live_count-expired now key none counts le f h = (refl, h)
  live_count-expired now key (some entry) counts le f h =
      if_both (λ (r : ℕ × Counts). (r.0 ≡ 0) × Expires by r.1) (leb entry.expires_at now) _ _
        (λ _. (refl, store_entry-Expires key none counts (λ n e. absurd (ground (arith, e))) h))
        (λ e. absurd (ground (arith, e, f entry refl, le)))

  limit-expired :
      (maximum : ℕ) (limits : Limits) (reason : String) (now : ℕ) (key : Key) (counts : Counts)
      (ask : Counts → ThrottleDecision × Counts)
      → 0 < maximum
      → by ≤ now
      → Expires by counts
      → ((rest : Counts) → Expires by rest → (ask rest).0.allowed ≡ true)
      → (limit maximum limits reason (get_count now key counts) ask).0.allowed ≡ true
  unfolding limit get_count
  limit-expired maximum limits reason now key counts ask pos le h f =
      let (zero_count, later) =
        live_count-expired now key (counts key) counts le (h.in_time key) h in
      if_both (λ (r : ThrottleDecision × Counts). r.0.allowed ≡ true)
        (leb maximum (live_count now key (counts key) counts).0) _ _
        (λ e. absurd (ground (arith, e, zero_count, pos))) (λ _. f _ later)

  check-expired :
      (limits : Limits) (now : ℕ) (email source_ip : String) (counts : Counts)
      → 0 < limits.ip_max
      → 0 < limits.account_ip_max
      → 0 < limits.account_max
      → by ≤ now
      → Expires by counts
      → (check limits now email source_ip counts).0.allowed ≡ true
  unfolding check by_account_ip by_account let_in
  check-expired limits now email source_ip counts a b c le h =
      let account = limits.account_component email in
      limit-expired limits.ip_max limits "ip" now (ip_key source_ip) counts
        (by_account_ip limits now account source_ip) a le h
        (λ r1 h1.
          limit-expired limits.account_ip_max limits "account_ip" now
            (account_ip_key account source_ip) r1 (by_account limits now account) b le h1
            (λ r2 h2.
              limit-expired limits.account_max limits "account" now (account_key account) r2 let_in
                c le h2 (λ r3 h3. refl)))

-- No permanent lockout: whatever logins have failed or succeeded, for whatever accounts and from
-- whatever addresses, once the longest window has passed since each of them, every login attempt is
-- let through again, if the limits are positive.
pub check_no_lockout :
    (limits : Limits) (events : List LoginEvent) (now : ℕ) (email source_ip : String)
    → 0 < limits.ip_max
    → 0 < limits.account_ip_max
    → 0 < limits.account_max
    → All (λ e. time_of e + longest limits ≤ now) events
    → (check limits now email source_ip (login_events limits (λ key. none) events)).0.allowed ≡ true
check_no_lockout limits events now email source_ip a b c passed =
    check-expired now limits now email source_ip _ a b c (omega arith) (
      login_events-Expires now limits events (λ key. none) passed
        (record { in_time = λ key entry e. absurd (ground (arith, e)) }))
