-- ===== src/Parsing/Pipeline/Lands.antt =====
-- How a parse job ends (app/services/document_parsing.py).
use rfp.Database.{
  Db, Document, DocumentPage, Outcome, ProposalProject, Status, Tables, commit, completed,
  parse_failed, parsing, rollback,
}
use rfp.Ingestion.Step.{after_move}
use rfp.Parsing.{owns, same_source}
use rfp.Parsing.Described.{AreUnits}
use rfp.Parsing.Owner.{Ended, QuietExtraction}
use rfp.Parsing.Pipeline.{
  ParserAnswer, PipelineCall, client_error, parsed, parser_crashed, reopened,
}
use rfp.Parsing.Pipeline.Begins.{Parsable, attempt_snapshot}
use rfp.Parsing.World.{ParseAttemptSnapshot, begun_change, begun_row}
use rfp.Prelude.{List, Option, String, none, some, true, ◌≡◌}

-- The status, the pages and the error code that the parser's answer calls for.
abbrev pub status_for : ParserAnswer → Status
status_for (parsed answer) = completed
status_for (client_error code message) = parse_failed
status_for (parser_crashed message) = parse_failed

abbrev pub code_for : ParserAnswer → Option String
code_for (parsed answer) = none
code_for (client_error code message) = some code
code_for (parser_crashed message) = some "PARSER_PERSISTENCE_FAILED"

-- The pages that the answer calls for.
abbrev pub PagesFor : Document → List DocumentPage → ParserAnswer → List DocumentPage → Type 0
PagesFor doc old (parsed answer) pages = AreUnits doc pages answer.units
PagesFor doc old (client_error code message) pages = pages ≡ old
PagesFor doc old (parser_crashed message) pages = pages ≡ old

-- The database takes the pages of the answer.
abbrev pub Taken : PipelineCall → ParserAnswer → Type 0
Taken call (parsed answer) = call.takes answer ≡ true
Taken call (client_error code message) = Unit
Taken call (parser_crashed message) = Unit

module _ (call : PipelineCall) (quiet : QuietExtraction call.env) (snapshot : ParseAttemptSnapshot)
    (doc : Document) (own : owns snapshot doc ≡ true) (same_file : same_source snapshot doc ≡ true)
    (db : Db) (at : db.working.document ≡ some doc) where
  Ends : ParserAnswer → Outcome (Unit {0}) × Db → Type 0
  Ends answer r =
      (pages : List DocumentPage) × PagesFor doc db.working.pages answer pages
      × Ended (status_for answer) pages (code_for answer) r.1

-- Other sessions leave the document's row alone while the parser works.
abbrev pub KeepsDocument : PipelineCall → Type 0
KeepsDocument call = (t : Tables) → (call.meanwhile t).document ≡ t.document

module _ (call : PipelineCall) (quiet : QuietExtraction call.env) (keeps : KeepsDocument call)
    (db : Db) (doc : Document) (project : ProposalProject)
    (p : Parsable call.env db doc project) where
  abbrev pub snapshot : ParseAttemptSnapshot
  snapshot = attempt_snapshot call.env doc project

  -- The session in which the answer is handled.
  abbrev pub session : Db
  session = reopened call (
      rollback (
        commit (
          after_move (begun_row call.env doc) parsing
            (begun_change call.env doc project.organization_id) (rollback db))))
