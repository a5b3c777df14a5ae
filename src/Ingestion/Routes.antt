-- ===== src/Ingestion/Routes.antt =====
-- Walks through ALLOWED_TRANSITIONS of app/services/ingestion_state.py.
use rfp.Database.{
  Status, Status-discrete, clean, clean_pending_promotion, completed, legacy_unverified,
  parse_failed, parsing, promoting, promotion_failed, quarantined, scan_failed, scanning,
  validating,
}
use rfp.Ingestion.{allowed_transitions, is_allowed}
use rfp.Prelude.{
  Bool, Bool-cases, [], arith, false, inl, inr, ite, refl, true, ℕ, ◌<◌, ◌||◌, ◌≡◌, ◌≤◌,
}

pub data Route (s : Status) : Status → Type 0 where
  here : Route s s
  next : {t u : Status} → Route s t → is_allowed t u ≡ true → Route s u

abbrev pub same : Status → Status → Bool
same s t = ite (Status-discrete s t) true false

pub passed : {s t : Status} → Status → Route s t → Bool
passed {s} x here = same s x
passed x (next {u = u} r h) = same u x || passed x r

-- How far along the pipeline a status is; the rejections lie beside it.
abbrev pub stage : Status → ℕ
stage quarantined = 0
stage legacy_unverified = 0
stage validating = 1
stage scanning = 2
stage scan_failed = 2
stage clean_pending_promotion = 3
stage promoting = 4
stage promotion_failed = 4
stage clean = 5
stage parsing = 6
stage parse_failed = 6
stage completed = 7
stage _ = 8

abbrev pub is_gate : Status → Bool
is_gate validating = true
is_gate scanning = true
is_gate clean_pending_promotion = true
is_gate promoting = true
is_gate clean = true
is_gate parsing = true
is_gate _ = false

gate_step :
    (x t u : Status)
    → is_allowed t u ≡ true
    → is_gate x ≡ true
    → stage x ≤ stage u
    → stage u < 8
    → same u x ≡ false
    → (stage x ≤ stage t) × (stage t < 8)
unfolding is_allowed
gate_step x quarantined u a g h k n = ground arith
gate_step x _ u a g h k n = ground arith

-- From upload, no document reaches a later stage of the pipeline without having passed every gate
-- up to it: validation, scanning, the clean-pending hold, promotion, clean storage and parsing.
pub no_shortcut :
    {t : Status} (x : Status) (r : Route quarantined t)
    → is_gate x ≡ true
    → stage x ≤ stage t
    → stage t < 8
    → passed x r ≡ true
unfolding passed
no_shortcut validating here g h n = elim h [ ]
no_shortcut scanning here g h n = elim h [ ]
no_shortcut clean_pending_promotion here g h n = elim h [ ]
no_shortcut promoting here g h n = elim h [ ]
no_shortcut clean here g h n = elim h [ ]
no_shortcut parsing here g h n = elim h [ ]
no_shortcut _ here g h n = cc
no_shortcut x (next {t = t} {u = u} r a) g h n = elim (Bool-cases (same u x)) [
  | inl now ↦ rw now
  | inr later ↦ let (k, m) = gate_step x t u a g h n later in rw (later, no_shortcut x r g k m)
]

stuck : (u t s : Status) → u ≡ s → allowed_transitions s ≡ [] → is_allowed u t ≡ true → t ≡ s
unfolding is_allowed
stuck u t s p e a = ground arith

-- A status with no way out of it, once reached, is where every continuation stays.
pub terminal_stays : {s t : Status} → allowed_transitions s ≡ [] → Route s t → t ≡ s
terminal_stays e here = refl
terminal_stays {s} {t} e (next {t = u} r a) = stuck u t s (terminal_stays e r) e a
