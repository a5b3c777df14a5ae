-- ===== src/Extraction/Service.antt =====
-- create_requirement_candidates of app/services/candidate_extraction.py: the snapshot and the run, the
-- extractor, and the call of the phase that writes. Of the failures of the database it has one, the rows
-- of the phase that writes being refused when they are flushed.
pub mod Phases
pub mod Outcomes
pub mod RunEnds
mod Examples
use rfp.Database.{
  AuditEvent, Detail, Document, DocumentPage, Outcome, ProposalProject, extraction_service_error,
  number, raised, returned, status, text,
}
use rfp.Extraction.{CandidateUnit, RunScope}
use rfp.Extraction.Persist.{all_hashes_match, is_completed, mark_run_failed, persist_candidates}
use rfp.Extraction.Store.{
  Rows, Store, commit_rows, compute_snapshot_sha256, first_with, load_ordered_pages, rollback_rows,
  update_with,
}
use rfp.Extraction.World.{
  ExtractionRun, ProviderUsage, RunStatus, TextOps, no_usage, run_completed, running,
}
use rfp.Prelude.{
  Bool, List, Option, String, Text, [], false, if◌then◌else◌, length, ltb, map, none, not, or_else,
  some, str_eq, true, ℕ, ◌&&◌, ◌+◌, ◌==◌, ◌||◌, ◌∷◌,
}
use rfp.Prelude.Dict.{Dict, update_dict}
use rfp.Promotion.{failure_code}
use rfp.Reviewers.{reported}

abbrev pub prompt_version_now : String
prompt_version_now = "requirement-extraction-v1"

abbrev pub schema_version : String
schema_version = "requirement-candidates-v1"

pub record SourceUnit : Type 0 where
  pub unit_sequence : ℕ
  pub unit_page_id : ℕ
  pub kind : String
  pub locator : Text
  pub unit_content : Text
  pub unit_sha256 : String

pub record ExtractionRequest : Type 0 where
  pub request_document_id : ℕ
  pub extraction_run_id : ℕ
  pub request_schema_version : String
  pub request_prompt_version : String
  pub source_units : List SourceUnit

-- What an extractor answers: the units of a response, an ExtractionError with its code, or another
-- exception.
pub data Answer : Type 0 where
  extracted : List CandidateUnit → Answer
  extraction_error : String → Answer
  extractor_crashed : Answer

pub record Extractor : Type 0 where
  pub provider_name : String
  pub model_name : String
  pub extract : ExtractionRequest → Answer
  pub reported : Option ProviderUsage

-- One call: the identifiers it draws, the limits of the settings, the extractor, the times at which it
-- looks at the clock, what other sessions commit while no transaction is open, and whether the database
-- takes the rows of the phase that writes (a text with a NUL is refused, for one).
pub record ServiceCall : Type 0 where
  pub ops : TextOps
  pub document_id : ℕ
  pub organization_id : ℕ
  pub run_id : ℕ
  pub attempt_id : String
  pub fresh_id : ℕ → ℕ
  pub max_source_units : ℕ
  pub max_input_chars : ℕ
  pub extractor : Extractor
  pub now : ℕ
  pub now_failed : ℕ
  pub now_persisted : ℕ
  pub meanwhile : Rows → Rows
  pub takes : Rows → Bool

pub fail : String → Store → Outcome (Option ExtractionRun) × Store
fail code store = (raised (extraction_service_error code), store)

-- _record_extraction_audit
unfoldable pub record_extraction_audit :
    ServiceCall → ℕ → Option ℕ → String → Dict Detail → Store → Store
record_extraction_audit call project_id run_id action details store =
    let event : AuditEvent = record {
      organization_id = call.organization_id;
      user_id = none;
      action = action;
      entity_type = "ExtractionRun";
      entity_id = or_else run_id call.document_id;
      details =
          update_dict
            (("project_id", number project_id)
              ∷ ("document_id", number call.document_id)
              ∷ ("extraction_schema_version", text schema_version)
              ∷ ("prompt_version", text prompt_version_now)
              ∷ [])
            details;
      request_id = store.request_id;
    } in
    commit_rows
      (record store { working = record store.working { audit = event ∷ store.working.audit } })

record_usage : ProviderUsage → ExtractionRun → ExtractionRun
record_usage used run = record run { usage = used }

usage_on : ℕ → ProviderUsage → Option ExtractionRun → Store → Store
unfolding record_usage
usage_on run_id used none store = store
usage_on run_id used (some run) store = commit_rows (record store {
  working = record store.working {
    runs = update_with (λ r. r.id == run_id) (record_usage used) store.working.runs;
  };
})

-- _record_provider_usage
unfoldable pub record_provider_usage : ℕ → Option ProviderUsage → Store → Store
unfolding usage_on
record_provider_usage run_id none store = store
record_provider_usage run_id (some used) store =
    usage_on run_id used (first_with (λ r. r.id == run_id) store.working.runs) store

unfoldable pub total_characters : List DocumentPage → ℕ
total_characters [] = 0
total_characters (page ∷ pages) = length page.content + total_characters pages

abbrev is_completed_run : RunStatus → Bool
is_completed_run run_completed = true
is_completed_run _ = false

-- The test for a COMPLETED run of the same snapshot.
unfoldable pub is_same_run : ServiceCall → String → ExtractionRun → Bool
is_same_run call snapshot run =
    (run.document_id == call.document_id)
    && str_eq run.input_snapshot_sha256 snapshot
    && str_eq run.extraction_schema_version schema_version
    && str_eq run.prompt_version prompt_version_now
    && is_completed_run run.status

unfoldable pub new_run : ServiceCall → ℕ → Document → List DocumentPage → String → ExtractionRun
new_run call project_id doc pages snapshot = record {
  id = call.run_id;
  organization_id = call.organization_id;
  project_id = project_id;
  document_id = call.document_id;
  status = running;
  extraction_attempt_id = call.attempt_id;
  input_snapshot_sha256 = snapshot;
  page_count = length pages;
  parser_version = doc.parser_version;
  extraction_schema_version = schema_version;
  prompt_version = prompt_version_now;
  provider = call.extractor.provider_name;
  model = call.extractor.model_name;
  started_at = call.now;
  usage = no_usage;
  candidate_count = 0;
  received_candidate_count = 0;
  accepted_candidate_count = 0;
  skipped_candidate_count = 0;
  validation_issue_counts = [];
  failure_code = none;
  completed_at = none;
}

unfoldable pub source_unit_of : DocumentPage → SourceUnit
source_unit_of page = record {
  unit_sequence = page.page_number;
  unit_page_id = page.id;
  kind = or_else page.unit_kind "";
  locator = or_else page.source_locator [];
  unit_content = page.content;
  unit_sha256 = or_else page.content_sha256 "";
}

unfoldable pub request_of : ServiceCall → List DocumentPage → ExtractionRequest
request_of call pages = record {
  request_document_id = call.document_id;
  extraction_run_id = call.run_id;
  request_schema_version = schema_version;
  request_prompt_version = prompt_version_now;
  source_units = map source_unit_of pages;
}

unfoldable pub scope_of : ServiceCall → ℕ → RunScope
scope_of call project_id = record {
  ops = call.ops;
  organization_id = call.organization_id;
  project_id = project_id;
  document_id = call.document_id;
  run_id = call.run_id;
  fresh_id = call.fresh_id;
}

abbrev counted : (ExtractionRun → ℕ) → Option ExtractionRun → Detail
counted counter none = number 0
counted counter (some run) = number (counter run)

completed_details : ServiceCall → Option ExtractionRun → Dict Detail
completed_details call run =
    ("provider", text call.extractor.provider_name)
    ∷ ("model", text call.extractor.model_name)
    ∷ ("received_candidate_count", counted (λ r. r.received_candidate_count) run)
    ∷ ("accepted_candidate_count", counted (λ r. r.accepted_candidate_count) run)
    ∷ ("skipped_candidate_count", counted (λ r. r.skipped_candidate_count) run)
    ∷ ("provider_call_count", counted (λ r. r.usage.provider_call_count) run)
    ∷ ("input_tokens", counted (λ r. r.usage.input_tokens) run)
    ∷ ("output_tokens", counted (λ r. r.usage.output_tokens) run)
    ∷ ("duration_ms", counted (λ r. r.usage.duration_ms) run)
    ∷ ("result_code", text "EXTRACTION_OK")
    ∷ []

completed_extraction : ServiceCall → ℕ → Store → Outcome (Option ExtractionRun) × Store
unfolding completed_details
completed_extraction call project_id store =
    let completed_run = first_with (λ r. r.id == call.run_id) store.working.runs in
    (
      returned completed_run,
      record_extraction_audit call project_id (some call.run_id) "extraction_completed"
          (completed_details call completed_run) store,
    )

-- After the phase that writes, which found `found_store`. A refused flush leaves the session waiting for
-- a rollback: _mark_run_failed then fails too, and swallows it.
after_persist :
    ServiceCall → ℕ → Store → Outcome {0} Unit × Store → Outcome (Option ExtractionRun) × Store
unfolding fail completed_extraction
after_persist call project_id found_store (raised (extraction_service_error code), store) =
    (raised (extraction_service_error code), store)
after_persist call project_id found_store (raised e, store) =
    fail "PERSISTENCE_FAILED"
      (mark_run_failed call.run_id "PERSISTENCE_FAILED" call.now_failed store)
after_persist call project_id found_store (returned r, store) =
    if call.takes store.committed
    then completed_extraction call project_id store
    else fail "PERSISTENCE_FAILED" (rollback_rows found_store)

-- A failure of the extractor.
extractor_failed :
    ServiceCall → ℕ → String → Dict Detail → Store → Outcome (Option ExtractionRun) × Store
unfolding fail
extractor_failed call project_id code details store = fail code (
    record_extraction_audit call project_id (some call.run_id) "extraction_failed"
      (("result_code", text code) ∷ details)
      (mark_run_failed call.run_id code call.now_failed
        (record_provider_usage call.run_id call.extractor.reported store)))

-- Phase B after the extractor's answer, and phase C.
unfoldable pub with_answer :
    ServiceCall → ℕ → String → Answer → Store → Outcome (Option ExtractionRun) × Store
unfolding after_persist extractor_failed
with_answer call project_id snapshot (extraction_error code) store =
    extractor_failed call project_id code (("provider", text call.extractor.provider_name) ∷ [])
      store
with_answer call project_id snapshot extractor_crashed store =
    extractor_failed call project_id "EXTRACTOR_FAILED" [] store
with_answer call project_id snapshot (extracted units) store =
    let found_store = record_provider_usage call.run_id call.extractor.reported store in
    after_persist call project_id found_store (
      persist_candidates (scope_of call project_id) call.now_persisted call.attempt_id snapshot
        units found_store)

-- What other sessions commit while this one holds no transaction.
unfoldable pub resumed : ServiceCall → Store → Store
resumed call store = record store {
  committed = call.meanwhile store.committed;
  working = call.meanwhile store.committed;
}

-- The run is created and its start is audited.
unfoldable pub begun_run : ServiceCall → ℕ → Document → List DocumentPage → String → Store → Store
begun_run call project_id doc pages snapshot store =
    record_extraction_audit call project_id (some call.run_id) "extraction_started"
      (("page_count", number (length pages))
        ∷ ("total_characters", number (total_characters pages))
        ∷ ("provider", text call.extractor.provider_name)
        ∷ ("model", text call.extractor.model_name)
        ∷ [])
      (commit_rows (record store {
        working = record store.working {
          runs = new_run call project_id doc pages snapshot ∷ store.working.runs;
        };
      }))

pub begin_run :
    ServiceCall
    → ℕ
    → Document
    → List DocumentPage
    → String
    → Store
    → Outcome (Option ExtractionRun) × Store
begin_run call project_id doc pages snapshot store =
    with_answer call project_id snapshot (call.extractor.extract (request_of call pages))
      (resumed call (begun_run call project_id doc pages snapshot store))

unless_done :
    ServiceCall
    → ℕ
    → Document
    → List DocumentPage
    → String
    → Option ExtractionRun
    → Store
    → Outcome (Option ExtractionRun) × Store
unfolding begin_run fail
unless_done call project_id doc pages snapshot (some run) store =
    fail "DUPLICATE_COMPLETED_RUN" (rollback_rows store)
unless_done call project_id doc pages snapshot none store =
    begin_run call project_id doc pages snapshot store

-- The event of an input over the limits.
pub input_limit_exceeded :
    ServiceCall → ℕ → List DocumentPage → Store → Outcome (Option ExtractionRun) × Store
unfolding fail
input_limit_exceeded call project_id pages store = fail "EXTRACTION_INPUT_LIMIT" (
    record_extraction_audit call project_id none "extraction_input_limit_exceeded"
      (("page_count", number (length pages))
        ∷ ("total_characters", number (total_characters pages))
        ∷ ("max_source_units", number call.max_source_units)
        ∷ ("max_input_characters", number call.max_input_chars)
        ∷ ("result_code", text "EXTRACTION_INPUT_LIMIT")
        ∷ [])
      (rollback_rows store))

with_pages :
    ServiceCall → ℕ → Document → List DocumentPage → Store → Outcome (Option ExtractionRun) × Store
unfolding fail input_limit_exceeded unless_done
with_pages call project_id doc pages store =
    let snapshot = compute_snapshot_sha256 call.ops pages in
    if not (all_hashes_match call.ops pages)
    then fail "PAGE_CONTENT_HASH_MISMATCH" (rollback_rows store)
    else if ltb call.max_source_units (length pages)
        || ltb call.max_input_chars (total_characters pages)
    then input_limit_exceeded call project_id pages store
    else unless_done call project_id doc pages snapshot
        (first_with (is_same_run call snapshot) store.working.runs) store

with_owner :
    ServiceCall → Document → Option ProposalProject → Store → Outcome (Option ExtractionRun) × Store
unfolding fail with_pages
with_owner call doc none store = fail "TENANT_MISMATCH" (rollback_rows store)
with_owner call doc (some project) store =
    if not (project.organization_id == call.organization_id)
    then fail "TENANT_MISMATCH" (rollback_rows store)
    else if not (is_completed doc.ingestion_status)
    then fail "DOCUMENT_NOT_COMPLETED" (rollback_rows store)
    else with_pages call project.id doc (load_ordered_pages call.document_id store.working.pages)
        store

with_document : ServiceCall → Option Document → Store → Outcome (Option ExtractionRun) × Store
unfolding fail with_owner
with_document call none store = fail "DOCUMENT_NOT_COMPLETED" (rollback_rows store)
with_document call (some doc) store =
    with_owner call doc (first_with (λ p. p.id == doc.project_id) store.working.projects) store

unfoldable pub create_requirement_candidates :
    ServiceCall → Store → Outcome (Option ExtractionRun) × Store
unfolding with_document
create_requirement_candidates call store =
    with_document call (first_with (λ d. d.id == call.document_id) store.working.documents) store
