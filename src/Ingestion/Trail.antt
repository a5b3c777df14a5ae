-- ===== src/Ingestion/Trail.antt =====
-- The audit log that `transition` of app/services/ingestion_state.py leaves behind.
use mathlib.Core.Path.{subst}
use rfp.Database.{AuditEvent, Db, Document, Status, Tables, status}
use rfp.Ingestion.{Change, event_details, is_allowed, moved, transition, transition_event}
use rfp.Ingestion.Step.{
  after_move, transition_allowed, transition_cases, transition_refused, transition_same,
}
use rfp.Prelude.{List, Option-cases, [], ap, false, inl, inr, or_else, some, str_eq, true, ◌∷◌, ◌≡◌}
use rfp.Prelude.Dict.{lookup, lookup-insert}

-- The transition events of a log, oldest last, lead from `s` to `t` by allowed moves, and each
-- names in its details the statuses between which it moved. Other events stand between them.
pub data Trail (s : Status) : List AuditEvent → Status → Type 0 where
  start : Trail s [] s
  unrelated :
      {t : Status} {log : List AuditEvent} (e : AuditEvent)
      → str_eq e.action "document_ingestion_transition" ≡ false
      → Trail s log t
      → Trail s (e ∷ log) t
  moved_on :
      {t u : Status} {log : List AuditEvent} (e : AuditEvent)
      → is_allowed t u ≡ true
      → lookup "from" e.details ≡ some (status t)
      → lookup "to" e.details ≡ some (status u)
      → Trail s log t
      → Trail s (e ∷ log) u

abbrev Followed : Status → Tables → Type 0
Followed s tables =
    (doc : Document) → tables.document ≡ some doc → Trail s tables.audit doc.ingestion_status

-- What is committed and what is pending both agree with the log.
pub record IsLogged (s : Status) (db : Db) : Type 0 where
  pub at_rest : Followed s db.committed
  pub pending : Followed s db.working

details_from :
    (current new_status : Status) (change : Change)
    → lookup "from" (event_details current new_status change) ≡ some (status current)
unfolding event_details
details_from current new_status change = elim (Option-cases change.reason_code) [
  | inl e ↦ rw e (simp lookup-insert)
  | inr (c, e) ↦ rw e (simp lookup-insert)
]

details_to :
    (current new_status : Status) (change : Change)
    → lookup "to" (event_details current new_status change) ≡ some (status new_status)
unfolding event_details
details_to current new_status change = elim (Option-cases change.reason_code) [
  | inl e ↦ rw e (simp lookup-insert)
  | inr (c, e) ↦ rw e (simp lookup-insert)
]

module _ (s : Status) (doc : Document) (new_status : Status) (change : Change) (db : Db) where
  Followed-saved :
      (t : Tables) (d : Document)
      → Trail s t.audit d.ingestion_status
      → Followed s (record t { document = some d })
  Followed-saved t d r d' e =
      subst (λ (x : Document). Trail s t.audit x.ingestion_status) (ap (λ o. or_else o d) e) r

  moved-Trail :
      is_allowed doc.ingestion_status new_status ≡ true
      → Trail s db.working.audit doc.ingestion_status
      → Trail s (transition_event doc new_status change db.request_id ∷ db.working.audit) new_status
  unfolding transition_event
  moved-Trail a r =
      moved_on _ a (details_from doc.ingestion_status new_status change)
        (details_to doc.ingestion_status new_status change) r

  -- Whatever a call of `transition` does, accepted, repeated or refused, the log still leads from
  -- the first status to the one that the row has, also where `audit_detail` names the same keys.
  pub transition-IsLogged :
      IsLogged s db
      → Trail s db.working.audit doc.ingestion_status
      → IsLogged s (transition doc new_status change db).1
  transition-IsLogged l r = elim (transition_cases doc new_status change db) [
    | inl e ↦
        rw (transition_same doc new_status change db e)
          (record { at_rest = l.at_rest; pending = Followed-saved db.working doc r })
    | inr (inl a) ↦ rw (transition_allowed doc new_status change db a) (
        let k : Followed s (after_move doc new_status change db).working =
          Followed-saved
            (record db.working {
              audit = transition_event doc new_status change db.request_id ∷ db.working.audit;
            })
            (moved doc new_status change) (unfold moved in moved-Trail a r) in
        record { at_rest = k; pending = k })
    | inr (inr (n, f)) ↦
        rw (transition_refused doc new_status change db n f)
          (record { at_rest = l.at_rest; pending = Followed-saved db.working doc r })
  ]
