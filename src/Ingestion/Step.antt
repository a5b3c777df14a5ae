-- ===== src/Ingestion/Step.antt =====
-- How one call of `transition` of app/services/ingestion_state.py ends.
use rfp.Database.{
  Db, Document, Status, Status-discrete, add_event, commit, ingestion_state_error, raised, returned,
  save,
}
use rfp.Ingestion.{Change, is_allowed, moved, transition, transition_event}
use rfp.Prelude.{Bool-cases, arith, false, if_neg, if_pos, inl, inr, true, ◌≡◌, ◌≢◌, ◌⊎◌}

-- The session after a move that the table allows.
abbrev pub after_move : Document → Status → Change → Db → Db
after_move doc new_status change db = commit (
    add_event (transition_event doc new_status change db.request_id)
      (save (moved doc new_status change) db))

module _ (doc : Document) (new_status : Status) (change : Change) (db : Db) where
  pub not_same :
      is_allowed doc.ingestion_status new_status ≡ true → doc.ingestion_status ≢ new_status
  unfolding is_allowed
  not_same a e = ground arith

  pub transition_same :
      doc.ingestion_status ≡ new_status
      → transition doc new_status change db ≡ (returned doc, save doc db)
  unfolding transition
  transition_same e = rw (if_pos _ e)

  pub transition_allowed :
      is_allowed doc.ingestion_status new_status ≡ true
      → transition doc new_status change db
        ≡ (returned (moved doc new_status change), after_move doc new_status change db)
  unfolding transition
  transition_allowed a = rw (if_neg _ (not_same a), a)

  pub transition_refused :
      doc.ingestion_status ≢ new_status
      → is_allowed doc.ingestion_status new_status ≡ false
      → transition doc new_status change db ≡ (raised ingestion_state_error, save doc db)
  unfolding transition
  transition_refused n a = rw (if_neg _ n, a)

  -- The three ways in which a call can end.
  pub transition_cases :
      (doc.ingestion_status ≡ new_status)
      ⊎ (is_allowed doc.ingestion_status new_status ≡ true)
      ⊎ ((doc.ingestion_status ≢ new_status) × (is_allowed doc.ingestion_status new_status ≡ false))
  transition_cases = elim (Status-discrete doc.ingestion_status new_status) [
    | yes e ↦ inl e
    | no n ↦ elim (Bool-cases (is_allowed doc.ingestion_status new_status)) [
      | inl a ↦ inr (inl a)
      | inr f ↦ inr (inr (n, f))
    ]
  ]
