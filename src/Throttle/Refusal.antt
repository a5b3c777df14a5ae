-- ===== src/Throttle/Refusal.antt =====
-- Why an address that keeps failing is refused.
use mathlib.Core.Path.{subst}
use rfp.Prelude.{
  All, List, Option, String, [], ap, arith, eq_iff, eq_refl, false, if_both, if◌then◌else◌, leb,
  none, refl, some, str_eq, sym, true, ℕ, ◌+◌, ◌<◌, ◌∙◌, ◌∷◌, ◌≡◌, ◌≤◌,
}
use rfp.Throttle.{
  Counts, Entry, Key, Limits, ThrottleDecision, by_account_ip, check, get_count, increment, ip_key,
  limit, live_count, next_entry, record_login_failure, record_login_success, reset, same_key,
  store_entry,
}
use rfp.Throttle.Cooldown.{
  LoginEvent, login_event, login_events, login_failed, login_succeeded, time_of,
}

-- How many of the events are failures of the address.
unfoldable pub failures : String → List LoginEvent → ℕ
failures source_ip [] = 0
failures source_ip (login_failed now email other_ip ∷ rest) =
    let later = failures source_ip rest in if str_eq other_ip source_ip then later + 1 else later
failures source_ip (login_succeeded now email other_ip ∷ rest) = failures source_ip rest

module _ (limits : Limits) (source_ip : String) where
  ip_entry :
      (now : ℕ) (email : String) (counts : Counts)
      → record_login_failure limits now email source_ip counts (ip_key source_ip)
        ≡ some (next_entry now limits.ip_window (counts (ip_key source_ip)))
  unfolding record_login_failure increment store_entry same_key
  ip_entry now email counts = rw (eq_refl source_ip) refl

  next_entry-live :
      (now by n : ℕ)
      → now < by
      → next_entry now limits.ip_window (some (record { count = n; expires_at = by }))
        ≡ record { count = n + 1; expires_at = by }
  unfolding next_entry
  next_entry-live now by n lt =
      if_both (λ (e : Entry). e ≡ record { count = n + 1; expires_at = by }) (leb by now) _ _
        (λ e. absurd (ground (arith, e, lt))) (λ _. refl)

  -- A failure of another address, and any success, leave the counter of this one.
  other_entry :
      (now : ℕ) (email other_ip : String) (counts : Counts)
      → str_eq other_ip source_ip ≡ false
      → record_login_failure limits now email other_ip counts (ip_key source_ip)
        ≡ counts (ip_key source_ip)
  unfolding record_login_failure increment store_entry same_key
  other_entry now email other_ip counts e = rw e refl

  success_entry :
      (email other_ip : String) (counts : Counts)
      → record_login_success limits email other_ip counts (ip_key source_ip)
        ≡ counts (ip_key source_ip)
  unfolding record_login_success reset store_entry same_key
  success_entry email other_ip counts = refl

  own_entry :
      (now : ℕ) (email other_ip : String) (counts : Counts)
      → str_eq other_ip source_ip ≡ true
      → record_login_failure limits now email other_ip counts (ip_key source_ip)
        ≡ some (next_entry now limits.ip_window (counts (ip_key source_ip)))
  own_entry now email other_ip counts e =
      subst
        (λ (ip : String).
          record_login_failure limits now email ip counts (ip_key source_ip)
          ≡ some (next_entry now limits.ip_window (counts (ip_key source_ip))))
        (sym ((eq_iff other_ip source_ip).0 e)) (ip_entry now email counts)

  counted :
      (by n : ℕ) (events : List LoginEvent) (counts : Counts)
      → All (λ e. time_of e < by) events
      → counts (ip_key source_ip) ≡ some (record { count = n; expires_at = by })
      → login_events limits counts events (ip_key source_ip)
        ≡ some (record { count = n + failures source_ip events; expires_at = by })
  unfolding login_events login_event failures
  counted by n [] counts early e =
      e ∙ ap (λ k. some (record { count = k; expires_at = by })) (omega arith)
  counted by n (login_failed now email other_ip ∷ rest) counts early e =
      if_both
        (λ (k : ℕ).
          login_events limits (record_login_failure limits now email other_ip counts) rest
            (ip_key source_ip)
          ≡ some (record { count = n + k; expires_at = by }))
        (str_eq other_ip source_ip) _ _
        (λ own.
          counted by (n + 1) rest _ early.1 (
            own_entry now email other_ip counts own
            ∙ ap (λ o. some (next_entry now limits.ip_window o)) e
            ∙ ap some (next_entry-live now by n early.0))
          ∙ ap (λ k. some (record { count = k; expires_at = by })) (omega arith))
        (λ other. counted by n rest _ early.1 (other_entry now email other_ip counts other ∙ e))
  counted by n (login_succeeded now email other_ip ∷ rest) counts early e =
      counted by n rest _ early.1 (success_entry email other_ip counts ∙ e)

  live_count-some :
      (now : ℕ) (key : Key) (o : Option Entry) (entry : Entry) (counts : Counts)
      → o ≡ some entry
      → now < entry.expires_at
      → (live_count now key o counts).0 ≡ entry.count
  unfolding live_count
  live_count-some now key o entry counts e lt =
      subst (λ (p : Option Entry). (live_count now key p counts).0 ≡ entry.count) (sym e)
        (if_both (λ (r : ℕ × Counts). r.0 ≡ entry.count) (leb entry.expires_at now) _ _
          (λ late. absurd (ground (arith, late, lt))) (λ _. refl))

  limit-reached :
      (maximum : ℕ) (r : ℕ × Counts) (reason : String) (ask : Counts → ThrottleDecision × Counts)
      → maximum ≤ r.0
      → (limit maximum limits reason r ask).0.allowed ≡ false
  unfolding limit
  limit-reached maximum (n, counts) reason ask le =
      if_both (λ (d : ThrottleDecision × Counts). d.0.allowed ≡ false) (leb maximum n) _ _
        (λ _. refl) (λ e. absurd (ground (arith, e, le)))

-- An address without a counter that fails as often as its limit allows within the window of its first
-- failure is refused until that window is over, for every account, whatever accounts it tried, and
-- whatever other logins of it or of others succeed or fail meanwhile.
pub check_refuses :
    (limits : Limits) (counts : Counts) (source_ip email first_email : String) (first now : ℕ)
    (events : List LoginEvent)
    → counts (ip_key source_ip) ≡ none
    → All (λ e. time_of e < first + limits.ip_window) events
    → limits.ip_max ≤ failures source_ip events + 1
    → now < first + limits.ip_window
    → (check limits now email source_ip
        (login_events limits counts (login_failed first first_email source_ip ∷ events))).0.allowed
      ≡ false
unfolding check login_events login_event get_count next_entry
check_refuses limits counts source_ip email first_email first now events new early enough
      in_window =
    let by = first + limits.ip_window in
    let once = record_login_failure limits first first_email source_ip counts in
    let after = login_events limits once events in
    let counter = counted limits source_ip by 1 events once early (
      ip_entry limits source_ip first first_email counts
      ∙ ap (λ (o : Option Entry). some (next_entry first limits.ip_window o)) new) in
    let reading =
      live_count-some limits source_ip now (ip_key source_ip) (after (ip_key source_ip)) _ after
        counter in_window in
    limit-reached limits source_ip limits.ip_max _ "ip"
      (by_account_ip limits now (limits.account_component email) source_ip)
      (omega (arith, reading, enough))
