-- ===== src/Ingestion/Examples.antt =====
-- Tests of app/services/ingestion_state.py, and its theorems at concrete inputs.
use mathlib.Core.Path.{subst}
use rfp.Database.{
  clean, clean_pending_promotion, flag, ingestion_state_error, parse_failed, promoting, quarantined,
  raised, scanning, status, validating,
}
use rfp.Ingestion.{
  Change, is_allowed, plain, status_name, status_named, transition, transition_named,
}
use rfp.Ingestion.Names.{status_named-status_name}
use rfp.Ingestion.Routes.{Route, here, next, no_shortcut, passed}
use rfp.Ingestion.Trail.{IsLogged, Trail, start, transition-IsLogged}
use rfp.Prelude.{[], arith, none, or_else, refl, some, true, ◌∷◌, ◌≡◌}
use rfp.Samples.{db_of, with_status}

abbrev forged : Change
forged = record (plain 7 none) { audit_detail = ("from", status clean) ∷ ("note", flag true) ∷ [] }

-- A document cannot be taken from quarantine straight to clean storage.
refused_jump :
    (transition_named
      (with_status quarantined)
      "CLEAN"
      (plain 7 none)
      (db_of (with_status quarantined))).0
    ≡ raised ingestion_state_error
unfolding transition_named is_allowed
refused_jump = refl

unknown_status :
    (transition_named
      (with_status quarantined)
      "DONE"
      (plain 7 none)
      (db_of (with_status quarantined))).0
    ≡ raised ingestion_state_error
unfolding transition_named
unknown_status = refl

transition-IsLogged_example :
    IsLogged quarantined
      (transition (with_status quarantined) validating forged (db_of (with_status quarantined))).1
transition-IsLogged_example =
    transition-IsLogged quarantined (with_status quarantined) validating forged
      (db_of (with_status quarantined))
      (record {
        at_rest = λ d e.
            subst (λ o. Trail quarantined [] (or_else o (with_status quarantined)).ingestion_status)
              e start;
        pending = λ d e.
            subst (λ o. Trail quarantined [] (or_else o (with_status quarantined)).ingestion_status)
              e start;
      })
      start

to_clean : Route quarantined clean
unfolding is_allowed
to_clean =
    next {t = promoting}
      (next {t = clean_pending_promotion}
        (next {t = scanning} (next {t = validating} (next {t = quarantined} here refl) refl) refl)
        refl)
      refl

no_shortcut_example : passed scanning to_clean ≡ true
no_shortcut_example = no_shortcut scanning to_clean refl (omega arith) (omega arith)

status_named-status_name_example : status_named (status_name parse_failed) ≡ some parse_failed
status_named-status_name_example = status_named-status_name parse_failed
