-- ===== src/Parsing.antt =====
-- app/services/document_parsing.py: one attempt to parse a clean document into pages, in two
-- transactions around the call of the parser.
pub mod World
pub mod Final
pub mod Described
pub mod Owner
pub mod Pipeline
mod Examples
use rfp.Database.{
  Db, Document, DocumentPage, Exec, Outcome, ProposalProject, commit, completed, number,
  parse_failed, parsing, raised, returned, text,
}
use rfp.Ingestion.{Change, transition}
use rfp.Parsing.World.{
  ParseAttemptSnapshot, ParseEnv, ParserResponse, ParserUnit, begun_change, begun_row,
  clean_identifier_of, has_metadata, is_completed_status, is_parsable, is_parsing, snapshot_of,
}
use rfp.Prelude.{
  Bool, List, Option, String, [], if◌then◌else◌, is_some, leb, none, not, or_else, some, str_eq, ℕ,
  ◌&&◌, ◌+◌, ◌∷◌,
}

with_snapshot : ParseEnv → ℕ → Outcome Document × Db → Outcome (Option ParseAttemptSnapshot) × Db
unfolding snapshot_of
with_snapshot env org_id (returned doc, db) =
    (returned (some (snapshot_of env doc org_id)), commit db)
with_snapshot env org_id (raised e, db) = (raised e, db)

begin_attempt : ParseEnv → ℕ → Document → Exec (Option ParseAttemptSnapshot)
unfolding begun_row begun_change with_snapshot
begin_attempt env org_id doc db =
    with_snapshot env org_id
      (transition (begun_row env doc) parsing (begun_change env doc org_id) db)

pub for_project : ParseEnv → Document → Option ProposalProject → Exec (Option ParseAttemptSnapshot)
unfolding is_completed_status has_metadata begin_attempt
for_project env doc none db = (returned none, db)
for_project env doc (some project) db =
    if is_completed_status doc.ingestion_status
    then (returned none, db)
    else if not (is_parsable doc.ingestion_status)
    then (returned none, db)
    else if leb env.parse_max_attempts doc.parse_attempt_count
    then (returned none, db)
    else if not (has_metadata doc)
    then (returned none, db)
    else begin_attempt env project.organization_id doc db

pub for_document : ParseEnv → Option Document → Exec (Option ParseAttemptSnapshot)
unfolding for_project
for_document env none db = (returned none, db)
for_document env (some doc) db = for_project env doc db.working.project db

-- Phase A.
unfoldable pub prepare_parse_attempt : ParseEnv → Exec (Option ParseAttemptSnapshot)
unfolding for_document
prepare_parse_attempt env db = for_document env db.working.document db

-- The document is still in the attempt that the snapshot was taken for.
unfoldable pub owns : ParseAttemptSnapshot → Document → Bool
owns snapshot doc =
    is_parsing doc.ingestion_status
    && str_eq (or_else doc.parse_attempt_id "") snapshot.parse_attempt_id
    && is_some doc.parse_attempt_id

then_commit : Outcome Document × Db → Outcome (Unit {0}) × Db
then_commit (returned doc, db) = (returned tt, commit db)
then_commit (raised e, db) = (raised e, db)

failed_row : String → String → Document → Document
failed_row error_code summary doc = record doc {
  parse_error_code = some error_code;
  operator_failure_summary = some summary;
}

failed_change : ParseAttemptSnapshot → String → Change
failed_change snapshot error_code = record {
  org_id = snapshot.org_id;
  user_id = some snapshot.user_id;
  reason_code = some error_code;
  safe_summary = none;
  audit_detail =
      ("error_code", text error_code) ∷ ("parse_attempt_id", text snapshot.parse_attempt_id) ∷ [];
}

pub fail_row : ParseAttemptSnapshot → String → String → Option Document → Exec (Unit {0})
unfolding then_commit failed_row failed_change
fail_row snapshot error_code summary none db = (returned tt, db)
fail_row snapshot error_code summary (some doc) db =
    if owns snapshot doc
    then then_commit (
        transition (failed_row error_code summary doc) parse_failed
          (failed_change snapshot error_code) db)
    else (returned tt, db)

unfoldable pub fail_parse_attempt : ParseAttemptSnapshot → String → String → Exec (Unit {0})
unfolding fail_row
fail_parse_attempt snapshot error_code summary db =
    fail_row snapshot error_code summary db.working.document db

unfoldable pub pages_of : ParseEnv → Document → ℕ → List ParserUnit → List DocumentPage
pages_of env doc n [] = []
pages_of env doc n (unit ∷ rest) =
    record {
      id = env.fresh_id n;
      document_id = doc.id;
      page_number = unit.sequence;
      content = unit.content;
      unit_kind = some unit.unit_kind;
      source_locator = some unit.source_locator;
      content_sha256 = some unit.content_sha256;
    }
    ∷ pages_of env doc (n + 1) rest

parsed_row : ParseEnv → ParserResponse → Document → Document
parsed_row env response doc = record doc {
  parser_version = some response.parser_version;
  parser_completed_at = some env.now;
  parse_error_code = none;
}

parsed_change : ParseAttemptSnapshot → ParserResponse → Change
parsed_change snapshot response = record {
  org_id = snapshot.org_id;
  user_id = some snapshot.user_id;
  reason_code = none;
  safe_summary = none;
  audit_detail =
      ("total_units", number response.total_units)
      ∷ ("total_characters", number response.total_characters)
      ∷ [];
}

-- After the pages are committed, the extraction is queued.
then_enqueue : ParseEnv → ParseAttemptSnapshot → Outcome (Unit {0}) × Db → Outcome (Unit {0}) × Db
then_enqueue env snapshot (returned r, db) =
    (returned r, env.enqueue_extraction snapshot.document_id snapshot.org_id db)
then_enqueue env snapshot (raised e, db) = (raised e, db)

replace_pages : List DocumentPage → Db → Db
replace_pages pages db = record db { working = record db.working { pages = pages } }

unfoldable pub same_source : ParseAttemptSnapshot → Document → Bool
same_source snapshot doc =
    str_eq (clean_identifier_of doc) snapshot.clean_identifier
    && is_some doc.sha256_digest
    && str_eq (or_else doc.sha256_digest "") snapshot.sha256_digest

pub persist_row :
    ParseEnv → ParseAttemptSnapshot → ParserResponse → Option Document → Exec (Unit {0})
unfolding then_commit parsed_row parsed_change then_enqueue replace_pages
persist_row env snapshot response none db = (returned tt, db)
persist_row env snapshot response (some doc) db =
    if not (owns snapshot doc)
    then (returned tt, db)
    else if not (same_source snapshot doc)
    then fail_parse_attempt snapshot "PARSER_INPUT_CHANGED"
        "Clean document metadata changed during parsing" db
    else then_enqueue env snapshot (
        then_commit (
          transition (parsed_row env response doc) completed (parsed_change snapshot response)
            (replace_pages (pages_of env doc 0 response.units) db)))

-- Phase C.
unfoldable pub persist_parse_results :
    ParseEnv → ParseAttemptSnapshot → ParserResponse → Exec (Unit {0})
unfolding persist_row
persist_parse_results env snapshot response db =
    persist_row env snapshot response db.working.document db
