-- ===== src/Extraction/Service/Outcomes.antt =====
-- What create_requirement_candidates (app/services/candidate_extraction.py) writes to the candidates.
use rfp.Database.{DocumentPage, Outcome, raised, returned}
use rfp.Extraction.{CandidateUnit}
use rfp.Extraction.Persist.Atomic.{Written}
use rfp.Extraction.Service.{ServiceCall, extracted, request_of, scope_of}
use rfp.Extraction.Store.{Rows, Store, compute_snapshot_sha256, first_with, load_ordered_pages}
use rfp.Extraction.World.{ExtractionRun}
use rfp.Prelude.{List, Option, String, ℕ, ◌==◌, ◌≡◌, ◌⊎◌}
use rfp.Prelude.Dict.{Dict}

abbrev Settled : Store → Type 0
Settled s = s.working ≡ s.committed

record SameProposals (before after : Rows) : Type 0 where
  same_candidates : after.candidates ≡ before.candidates
  same_tasks : after.review_tasks ≡ before.review_tasks

-- The usage counters leave the proposals alone.
record Accounted (before after : Store) : Type 0 where
  proposals : SameProposals before.working after.working
  settles : Settled before → Settled after
  same_pages : after.working.pages ≡ before.working.pages

-- Nothing was proposed: candidates and review tasks are those that were committed before, or those that
-- other sessions committed during the extraction.
pub record NothingProposed (call : ServiceCall) (store after : Store) : Type 0 where
  pub base : Rows
  pub origin :
      (base ≡ store.committed)
      ⊎ ((rows : Rows) × (base ≡ call.meanwhile rows)
          × (rows.candidates ≡ store.working.candidates)
          × (rows.review_tasks ≡ store.working.review_tasks))
  pub base_candidates : after.committed.candidates ≡ base.candidates
  pub base_tasks : after.committed.review_tasks ≡ base.review_tasks
  pub nothing_pending : after.working ≡ after.committed

-- The pages that the extraction starts from.
abbrev pub pages_before : ServiceCall → Store → List DocumentPage
pages_before call store = load_ordered_pages call.document_id store.working.pages

-- Everything was proposed: phase C ended as `Written` says, for the units that the extractor gave on the
-- pages from before, on the tables as other sessions left them, and then only the audit log changed.
pub record Extracted (call : ServiceCall) (store : Store) (r : Option ExtractionRun) (after : Store)
    : Type 0 where
  pub project_id : ℕ
  pub snapshot : String
  pub units : List CandidateUnit
  pub found_tables : Store
  pub left_tables : Store
  pub base : Rows
  pub base_candidates : base.candidates ≡ store.working.candidates
  pub base_tasks : base.review_tasks ≡ store.working.review_tasks
  pub found_candidates : found_tables.working.candidates ≡ (call.meanwhile base).candidates
  pub found_tasks : found_tables.working.review_tasks ≡ (call.meanwhile base).review_tasks
  pub found_pages : found_tables.working.pages ≡ (call.meanwhile base).pages
  pub is_snapshot : snapshot ≡ compute_snapshot_sha256 call.ops (pages_before call store)
  pub answered :
      call.extractor.extract (request_of call (pages_before call store)) ≡ extracted units
  pub written :
      Written
        (scope_of call project_id)
        call.now_persisted
        call.attempt_id
        snapshot
        units
        found_tables
        left_tables
  pub returned_run : r ≡ first_with (λ run. run.id == call.run_id) left_tables.working.runs
  pub same_but_audit :
      after.committed ≡ record left_tables.working { audit = after.committed.audit }
  pub nothing_pending : after.working ≡ after.committed

abbrev pub CreateEnds : ServiceCall → Store → Outcome (Option ExtractionRun) × Store → Type 0
CreateEnds call store (returned r, after) = Extracted call store r after
CreateEnds call store (raised e, after) = NothingProposed call store after

module _ (call : ServiceCall) (store : Store) where
  module _ (project_id : ℕ) (rows : Rows)
      (from_candidates : rows.candidates ≡ store.working.candidates)
      (from_tasks : rows.review_tasks ≡ store.working.review_tasks) where
    -- The tables that the session finds after the extraction.
    abbrev Found : Store → Type 0
    Found s = (s.working ≡ call.meanwhile rows) × Settled s
