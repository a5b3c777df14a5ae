-- ===== src/Parsing/Final.antt =====
-- Why a parsed document stays as it is, whatever parse jobs are still delivered for it.
use mathlib.Core.Path.{subst}
use rfp.Database.{Db, Document, ProposalProject, completed, returned}
use rfp.Parsing.{
  fail_parse_attempt, fail_row, for_document, for_project, owns, persist_parse_results, persist_row,
  prepare_parse_attempt,
}
use rfp.Parsing.World.{
  ParseAttemptSnapshot, ParseEnv, ParserResponse, is_completed_status, is_parsing,
}
use rfp.Prelude.{List, Option, String, [], ap, arith, false, none, refl, some, sym, true, ◌∷◌, ◌≡◌}

-- A step of some parse job, in whatever order the workers take them.
pub data ParseEvent : Type 0 where
  prepared : ParseEnv → ParseEvent
  persisted : ParseEnv → ParseAttemptSnapshot → ParserResponse → ParseEvent
  given_up : ParseAttemptSnapshot → String → String → ParseEvent

unfoldable pub parse_event : Db → ParseEvent → Db
parse_event db (prepared env) = (prepare_parse_attempt env db).1
parse_event db (persisted env snapshot response) =
    (persist_parse_results env snapshot response db).1
parse_event db (given_up snapshot error_code summary) =
    (fail_parse_attempt snapshot error_code summary db).1

unfoldable pub parse_events : Db → List ParseEvent → Db
parse_events db [] = db
parse_events db (e ∷ rest) = parse_events (parse_event db e) rest

module _ (doc : Document) (is_final : doc.ingestion_status ≡ completed) where
  never_owned : (snapshot : ParseAttemptSnapshot) → owns snapshot doc ≡ false
  unfolding owns is_parsing
  never_owned snapshot = ground (arith, is_final)

  recognized : is_completed_status doc.ingestion_status ≡ true
  unfolding is_completed_status
  recognized = ground (arith, is_final)

  for_project-same :
      (env : ParseEnv) (o : Option ProposalProject) (db : Db)
      → for_project env doc o db ≡ (returned none, db)
  unfolding for_project
  for_project-same env none db = refl
  for_project-same env (some project) db = rw recognized refl

  for_document-same :
      (env : ParseEnv) (o : Option Document) (db : Db)
      → o ≡ some doc
      → for_document env o db ≡ (returned none, db)
  unfolding for_document
  for_document-same env o db at = rw at (for_project-same env db.working.project db)

  fail_row-same :
      (snapshot : ParseAttemptSnapshot) (code summary : String) (o : Option Document) (db : Db)
      → o ≡ some doc
      → fail_row snapshot code summary o db ≡ (returned tt, db)
  unfolding fail_row
  fail_row-same snapshot code summary o db at = rw (at, never_owned snapshot) refl

  persist_row-same :
      (env : ParseEnv) (snapshot : ParseAttemptSnapshot) (response : ParserResponse)
      (o : Option Document) (db : Db)
      → o ≡ some doc
      → persist_row env snapshot response o db ≡ (returned tt, db)
  unfolding persist_row
  persist_row-same env snapshot response o db at = rw (at, never_owned snapshot) refl

  parse_event-same :
      (e : ParseEvent) (db : Db) → db.working.document ≡ some doc → parse_event db e ≡ db
  unfolding parse_event prepare_parse_attempt persist_parse_results fail_parse_attempt
  parse_event-same (prepared env) db at = ap (λ r. r.1) (for_document-same env _ db at)
  parse_event-same (persisted env snapshot response) db at =
      ap (λ r. r.1) (persist_row-same env snapshot response _ db at)
  parse_event-same (given_up snapshot code summary) db at =
      ap (λ r. r.1) (fail_row-same snapshot code summary _ db at)

-- A COMPLETED document is final for parsing: whatever attempts are begun, finished or given up
-- afterwards, in any order and with any snapshots, nothing in the tables, the queue or the log
-- changes, so the pages that extraction quotes stay the same.
pub parse_events_final :
    (events : List ParseEvent) (db : Db) (doc : Document)
    → db.working.document ≡ some doc
    → doc.ingestion_status ≡ completed
    → parse_events db events ≡ db
unfolding parse_events
parse_events_final [] db doc at e = refl
parse_events_final (event ∷ rest) db doc at e =
    let same_db = parse_event-same doc e event db at in
    subst (λ (after : Db). parse_events after rest ≡ db) (sym same_db)
      (parse_events_final rest db doc at e)
