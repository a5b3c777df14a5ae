-- ===== src/Extraction/Service/RunEnds.antt =====
-- No extraction run is left RUNNING (app/services/candidate_extraction.py).
use mathlib.Core.Path.{subst}
use rfp.Database.{
  Detail, Document, DocumentPage, Error, Outcome, extraction_service_error, raised, returned,
}
use rfp.Extraction.Persist.{mark_run_failed}
use rfp.Extraction.Persist.RunEnds.{
  AllCompleted, AllFailed, Owned, PhaseEnds, mark-AllFailed, persist-PhaseEnds,
}
use rfp.Extraction.Service.{
  Answer, ServiceCall, after_persist, begin_run, begun_run, completed_extraction,
  create_requirement_candidates, extracted, extraction_error, extractor_crashed, extractor_failed,
  fail, input_limit_exceeded, new_run, record_extraction_audit, record_provider_usage, record_usage,
  resumed, scope_of, usage_on, with_answer,
}
use rfp.Extraction.Service.Phases.{create-by}
use rfp.Extraction.Store.{Rows, Store, first_with, rollback_rows, update_with}
use rfp.Extraction.World.{ExtractionRun, ProviderUsage}
use rfp.Prelude.{
  Bool-cases, List, Option, String, [], arith, eq_refl, inl, inr, none, refl, same_number, some,
  sym, true, ℕ, ◌==◌, ◌∷◌, ◌≡◌, ◌⊎◌,
}
use rfp.Prelude.Dict.{Dict}

abbrev pub RunEnds : ServiceCall → Store → Outcome (Option ExtractionRun) × Store → Type 0
RunEnds call store (returned r, after) = AllCompleted call.run_id after.committed.runs
RunEnds call store (raised e, after) =
    (code : String) × (e ≡ extraction_service_error code)
    × ((after.committed.runs ≡ store.committed.runs)
        ⊎ AllFailed call.run_id code after.committed.runs)

module _ (call : ServiceCall) where
  -- The tables hold the run of this attempt.
  abbrev Holds : List ExtractionRun → Type 0
  Holds runs = Owned call.attempt_id (first_with (λ r. r.id == call.run_id) runs)

  usage-Holds :
      (used : ProviderUsage) (runs : List ExtractionRun)
      → Holds runs
      → Holds (update_with (λ r. r.id == call.run_id) (record_usage used) runs)
  unfolding first_with update_with record_usage
  usage-Holds used [] h = h
  usage-Holds used (r ∷ rest) h = elim (Bool-cases (r.id == call.run_id)) [
    | inl is ↦ ground (arith, is, h)
    | inr is_not ↦ ground (arith, is_not, h, usage-Holds used rest)
  ]

  usage_on-Holds :
      (used : ProviderUsage) (o : Option ExtractionRun) (s : Store)
      → Holds s.working.runs
      → Holds (usage_on call.run_id used o s).working.runs
  unfolding usage_on
  usage_on-Holds used none s h = h
  usage_on-Holds used (some run) s h = usage-Holds used s.working.runs h

  provider_usage-Holds :
      (o : Option ProviderUsage) (s : Store)
      → Holds s.working.runs
      → Holds (record_provider_usage call.run_id o s).working.runs
  unfolding record_provider_usage
  provider_usage-Holds none s h = h
  provider_usage-Holds (some used) s h =
      usage_on-Holds used (first_with (λ r. r.id == call.run_id) s.working.runs) s h

  marked :
      (code : String) (s : Store)
      → AllFailed call.run_id code (mark_run_failed call.run_id code call.now_failed s).working.runs
  unfolding mark_run_failed
  marked code s = mark-AllFailed call.run_id code call.now_failed s

  begun_first :
      (project_id : ℕ) (doc : Document) (pages : List DocumentPage) (snapshot : String)
      (store : Store)
      → Holds (begun_run call project_id doc pages snapshot store).committed.runs
  unfolding begun_run record_extraction_audit new_run first_with
  begun_first project_id doc pages snapshot store =
      rw (same_number {a = call.run_id} refl) (refl, eq_refl call.attempt_id)

  extractor_failed-RunEnds :
      (store : Store) (project_id : ℕ) (code : String) (details : Dict Detail) (s : Store)
      → RunEnds call store (extractor_failed call project_id code details s)
  unfolding extractor_failed fail record_extraction_audit
  extractor_failed-RunEnds store project_id code details s =
      (code, refl, inr (marked code (record_provider_usage call.run_id call.extractor.reported s)))

  after_persist-RunEnds :
      ((rows : Rows) → call.takes rows ≡ true)
      → (store : Store) (project_id : ℕ) (found_store : Store) (r : Outcome {0} Unit × Store)
      → PhaseEnds call.run_id r
      → RunEnds call store (after_persist call project_id found_store r)
  unfolding after_persist completed_extraction record_extraction_audit
  after_persist-RunEnds takes store project_id found_store (returned u, mid) h =
      rw (takes mid.committed) h
  after_persist-RunEnds takes store project_id found_store (raised e, mid)
        (code, is_error, done, failed_runs) =
      subst
        (λ (x : Error).
          RunEnds call store (after_persist call project_id found_store (raised x, mid)))
        (sym is_error) (code, refl, inr failed_runs)

  module _ (keeps_runs : (rows : Rows) → (call.meanwhile rows).runs ≡ rows.runs)
      (takes : (rows : Rows) → call.takes rows ≡ true) (store : Store) where
    begun-Holds :
        (project_id : ℕ) (doc : Document) (pages : List DocumentPage) (snapshot : String)
        → Holds (resumed call (begun_run call project_id doc pages snapshot store)).working.runs
    unfolding resumed
    begun-Holds project_id doc pages snapshot =
        subst Holds
          (sym (keeps_runs (begun_run call project_id doc pages snapshot store).committed))
          (begun_first project_id doc pages snapshot store)

    with_answer-RunEnds :
        (project_id : ℕ) (snapshot : String) (answer : Answer) (s : Store)
        → Holds s.working.runs
        → RunEnds call store (with_answer call project_id snapshot answer s)
    unfolding with_answer scope_of
    with_answer-RunEnds project_id snapshot (extraction_error code) s h =
        extractor_failed-RunEnds store project_id code _ s
    with_answer-RunEnds project_id snapshot extractor_crashed s h =
        extractor_failed-RunEnds store project_id "EXTRACTOR_FAILED" [] s
    with_answer-RunEnds project_id snapshot (extracted units) s h =
        after_persist-RunEnds takes store project_id
          (record_provider_usage call.run_id call.extractor.reported s) _
          (persist-PhaseEnds (scope_of call project_id) call.now_persisted call.attempt_id snapshot
            units (record_provider_usage call.run_id call.extractor.reported s)
            (provider_usage-Holds call.extractor.reported s h))

    begin_run-RunEnds :
        (project_id : ℕ) (doc : Document) (pages : List DocumentPage) (snapshot : String)
        → RunEnds call store (begin_run call project_id doc pages snapshot store)
    unfolding begin_run
    begin_run-RunEnds project_id doc pages snapshot =
        with_answer-RunEnds project_id snapshot _ _ (begun-Holds project_id doc pages snapshot)

    refused-RunEnds : (code : String) → RunEnds call store (fail code (rollback_rows store))
    unfolding fail
    refused-RunEnds code = (code, refl, inl refl)

    limit-RunEnds :
        (project_id : ℕ) (pages : List DocumentPage)
        → RunEnds call store (input_limit_exceeded call project_id pages store)
    unfolding input_limit_exceeded fail record_extraction_audit
    limit-RunEnds project_id pages = ("EXTRACTION_INPUT_LIMIT", refl, inl refl)

-- An extraction whose rows the database takes never leaves its run RUNNING: if it returns, every run with its identifier is
-- COMPLETED; if it raises, it raises an extraction error, and either it has made no run or every run
-- with its identifier is committed as FAILED with the code of that error. Other sessions are
-- assumed to leave the runs alone meanwhile.
pub create_requirement_candidates-RunEnds :
    (call : ServiceCall) (store : Store)
    → ((rows : Rows) → (call.meanwhile rows).runs ≡ rows.runs)
    → ((rows : Rows) → call.takes rows ≡ true)
    → RunEnds call store (create_requirement_candidates call store)
create_requirement_candidates-RunEnds call store keeps_runs takes =
    create-by call store (RunEnds call store) (refused-RunEnds call keeps_runs takes store)
      (limit-RunEnds call keeps_runs takes store)
      (λ project_id doc pages snapshot _ _.
        begin_run-RunEnds call keeps_runs takes store project_id doc pages snapshot)
