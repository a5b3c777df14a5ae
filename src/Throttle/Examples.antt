-- ===== src/Throttle/Examples.antt =====
-- Tests of app/core/sessions/throttling.py, and its theorem at a concrete input.
use rfp.Prelude.{List, [], arith, false, none, refl, true, ◌∷◌, ◌≡◌}
use rfp.Throttle.{
  Limits, check, get_count, increment, next_entry, record_login_failure, same_key, store_entry,
}
use rfp.Throttle.Cooldown.{
  LoginEvent, check_no_lockout, login_event, login_events, login_failed, login_succeeded,
}
use rfp.Throttle.Refusal.{check_refuses, failures}

abbrev one_try : Limits
one_try = record {
  account_component = λ email. email;
  account_ip_max = 1;
  account_ip_window = 60;
  ip_max = 5;
  ip_window = 60;
  account_max = 3;
  account_window = 120;
  max_cooldown = 300;
}

abbrev history : List LoginEvent
history = login_failed 10 "a" "1.1.1.1" ∷ login_failed 20 "a" "1.1.1.1" ∷ []

-- Right after a failure the account is refused from that address, and let in from another.
refuses :
    ((check one_try 30 "a" "1.1.1.1" (login_events one_try (λ key. none) history)).0.allowed
      ≡ false)
    × ((check one_try 30 "a" "2.2.2.2" (login_events one_try (λ key. none) history)).0.allowed
        ≡ true)
unfolding check login_events get_count login_event record_login_failure increment store_entry
    same_key next_entry
refuses = (refl, refl)

check_no_lockout_example :
    (check one_try 140 "a" "1.1.1.1" (login_events one_try (λ key. none) history)).0.allowed ≡ true
check_no_lockout_example =
    check_no_lockout one_try history 140 "a" "1.1.1.1" (omega arith) (omega arith) (omega arith)
      (omega arith, (omega arith, tt))

-- Five failures from one address within its window.
-- Five failures of one address, with a success and a failure of another address among them.
abbrev mixed_events : List LoginEvent
mixed_events =
    login_failed 20 "b" "1.1.1.1"
    ∷ login_succeeded 20 "b" "1.1.1.1"
    ∷ login_failed 21 "c" "1.1.1.1"
    ∷ login_failed 22 "d" "2.2.2.2"
    ∷ login_failed 22 "d" "1.1.1.1"
    ∷ login_failed 23 "e" "1.1.1.1"
    ∷ []

check_refuses_example :
    (check one_try 50 "z" "1.1.1.1"
      (login_events one_try (λ key. none) (login_failed 10 "a" "1.1.1.1" ∷ mixed_events))).0.allowed
    ≡ false
unfolding failures
check_refuses_example =
    check_refuses one_try (λ key. none) "1.1.1.1" "z" "a" 10 50 mixed_events refl
      (omega arith, (omega arith, (omega arith, (omega arith, (omega arith, (omega arith, tt))))))
      (omega arith) (omega arith)
