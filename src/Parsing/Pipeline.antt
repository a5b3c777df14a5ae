-- ===== src/Parsing/Pipeline.antt =====
-- run_parse_pipeline_async of app/services/document_parsing.py: a parse job, with a session for each
-- transaction and none during the call of the parser; and the queue calls for it of
-- app/core/queue.py.
pub mod Begins
pub mod Lands
mod Examples
use rfp.Database.{
  AuditEvent, Db, Document, Error, Exec, Outcome, ProposalProject, Tables, add_event, commit,
  enqueue, parse_job, raised, returned, rollback, text, unexpected,
}
use rfp.Parsing.{
  fail_parse_attempt, owns, persist_parse_results, prepare_parse_attempt, same_source,
}
use rfp.Parsing.Final.{persisted}
use rfp.Parsing.World.{ParseAttemptSnapshot, ParseEnv, ParserResponse}
use rfp.Prelude.{
  Bool, Option, String, [], false, if◌then◌else◌, ltb, none, not, some, str_eq, ◌&&◌, ◌||◌, ◌∷◌,
}

-- What the parser client answers: a response, a ParserClientError, or another exception.
pub data ParserAnswer : Type 0 where
  parsed : ParserResponse → ParserAnswer
  client_error : String → String → ParserAnswer
  parser_crashed : String → ParserAnswer

-- One job: the parser, what other sessions commit during its call, whether Redis takes a retry, how an
-- exception of the database step is described, and whether the database takes the pages of a
-- response (a locator over the column's length or a NUL is refused).
pub record PipelineCall : Type 0 where
  pub env : ParseEnv
  pub parser : ParseAttemptSnapshot → ParserAnswer
  pub meanwhile : Tables → Tables
  pub up : Bool
  pub describe_error : Error → String
  pub takes : ParserResponse → Bool

-- TRANSIENT_PARSE_ERRORS
unfoldable pub is_transient : String → Bool
is_transient code = str_eq code "PARSER_UNAVAILABLE" || str_eq code "PARSER_TIMEOUT"

-- Closing a session drops what is pending.
abbrev closed {ℓ} : {A : Type ℓ} → Outcome A × Db → Outcome A × Db
closed (r, db) = (r, rollback db)

retry_transient :
    PipelineCall → ParseAttemptSnapshot → String → Outcome (Unit {0}) × Db → Outcome (Unit {0}) × Db
retry_transient call snapshot code (raised e, db) = (raised e, db)
retry_transient call snapshot code (returned u, db) =
    if is_transient code && ltb snapshot.attempt_count call.env.parse_max_attempts && call.up
    then (returned u, enqueue (parse_job snapshot.document_id) db)
    else (returned u, db)

-- An exception of the database step is recorded on the same session.
after_persisting :
    PipelineCall → ParseAttemptSnapshot → Outcome (Unit {0}) × Db → Outcome (Unit {0}) × Db
after_persisting call snapshot (returned u, db) = (returned u, db)
after_persisting call snapshot (raised e, db) =
    fail_parse_attempt snapshot "PARSER_PERSISTENCE_FAILED" (call.describe_error e) db

-- Phase C writes the pages.
unfoldable pub replaces : ParseAttemptSnapshot → Option Document → Bool
replaces snapshot none = false
replaces snapshot (some doc) = owns snapshot doc && same_source snapshot doc

-- Phases B and C. When the database refuses the pages, the session waits for a rollback, so that the query of
-- fail_parse_attempt raises too.
unfoldable pub with_parser : PipelineCall → ParseAttemptSnapshot → ParserAnswer → Exec (Unit {0})
unfolding retry_transient after_persisting
with_parser call snapshot (client_error code message) db =
    retry_transient call snapshot code (fail_parse_attempt snapshot code message db)
with_parser call snapshot (parser_crashed message) db =
    fail_parse_attempt snapshot "PARSER_PERSISTENCE_FAILED" message db
with_parser call snapshot (parsed pages) db =
    let persisted =
      after_persisting call snapshot (persist_parse_results call.env snapshot pages db) in
    if replaces snapshot db.working.document && not (call.takes pages)
    then (raised unexpected, rollback db)
    else persisted

-- The session after the call of the parser.
unfoldable pub reopened : PipelineCall → Db → Db
reopened call db = record db {
  committed = call.meanwhile db.committed;
  working = call.meanwhile db.committed;
}

with_attempt : PipelineCall → Outcome (Option ParseAttemptSnapshot) × Db → Outcome (Unit {0}) × Db
with_attempt call (raised e, db) = (raised e, rollback db)
with_attempt call (returned none, db) = (returned tt, rollback db)
with_attempt call (returned (some snapshot), db) =
    closed (with_parser call snapshot (call.parser snapshot) (reopened call (rollback db)))

unfoldable pub run_parse_pipeline : PipelineCall → Exec (Unit {0})
unfolding with_attempt
run_parse_pipeline call db = with_attempt call (prepare_parse_attempt call.env (rollback db))

enqueue_failed_event : ProposalProject → Document → Option String → AuditEvent
enqueue_failed_event project doc request_id = record {
  organization_id = project.organization_id;
  user_id = some doc.created_by_id;
  action = "document_parse_enqueue_failed";
  entity_type = "document";
  entity_id = doc.id;
  details = ("reason_code", text "PARSE_QUEUE_FAILED") ∷ [];
  request_id = request_id;
}

parse_enqueue_failed : Option Document → Option ProposalProject → Db → Db
unfolding enqueue_failed_event
parse_enqueue_failed (some doc) (some project) db =
    commit (add_event (enqueue_failed_event project doc none) db)
parse_enqueue_failed _ _ db = db

-- _handle_parse_enqueue_failure
unfoldable pub handle_parse_enqueue_failure : Db → Db
unfolding parse_enqueue_failed
handle_parse_enqueue_failure db =
    let opened = rollback db in
    rollback (parse_enqueue_failed opened.working.document opened.working.project opened)
