-- ===== src/Parsing/Owner.antt =====
-- What phase C of a parse attempt does, for the attempt that owns the document and for any other.
use rfp.Database.{Db, Document, DocumentPage, Outcome, Status, completed, parse_failed, returned}
use rfp.Ingestion.{is_allowed, moved}
use rfp.Ingestion.Step.{transition_allowed}
use rfp.Parsing.{fail_row, failed_change, failed_row, owns, then_commit}
use rfp.Parsing.Described.{AreUnits, InAttempt, SameFile}
use rfp.Parsing.World.{ParseAttemptSnapshot, ParseEnv, ParserResponse, is_parsing}
use rfp.Prelude.{List, Option, String, arith, none, refl, some, true, ℕ, ◌≡◌}

-- Queueing the extraction leaves the tables alone.
pub record QuietExtraction (env : ParseEnv) : Type 0 where
  pub same_rows :
      (n m : ℕ) (db : Db)
      → ((env.enqueue_extraction n m db).committed ≡ db.committed)
        × ((env.enqueue_extraction n m db).working ≡ db.working)

-- The attempt is over with the given status, pages and error code.
pub record Ended (t : Status) (pages : List DocumentPage) (code : Option String) (db : Db)
    : Type 0 where
  pub row : Document
  pub committed_row : db.committed.document ≡ some row
  pub working_row : db.working.document ≡ some row
  pub exit : row.ingestion_status ≡ t
  pub committed_pages : db.committed.pages ≡ pages
  pub coded : row.parse_error_code ≡ code

-- How phase C ends for the document that it finds.
pub data Persisted (env : ParseEnv) (snapshot : ParseAttemptSnapshot) (response : ParserResponse)
    (doc : Document) (db : Db) (r : Outcome (Unit {0}) × Db) : Type 0 where
  stale :
      ¬ InAttempt snapshot doc → r ≡ (returned tt, db) → Persisted env snapshot response doc db r
  drifted :
      InAttempt snapshot doc
      → ¬ SameFile snapshot doc
      → Ended parse_failed db.working.pages (some "PARSER_INPUT_CHANGED") r.1
      → Persisted env snapshot response doc db r
  replaced :
      InAttempt snapshot doc
      → SameFile snapshot doc
      → (pages : List DocumentPage) → AreUnits doc pages response.units
      → Ended completed pages none r.1
      → Persisted env snapshot response doc db r

leaves_parsing :
    (snapshot : ParseAttemptSnapshot) (doc : Document)
    → owns snapshot doc ≡ true
    → (is_allowed doc.ingestion_status completed ≡ true)
      × (is_allowed doc.ingestion_status parse_failed ≡ true)
unfolding owns is_parsing is_allowed
leaves_parsing snapshot doc e = ground (arith, e)

module _ (snapshot : ParseAttemptSnapshot) (doc : Document) (own : owns snapshot doc ≡ true) where
  pub fail_row-Ended :
      (code summary : String) (o : Option Document) (db : Db)
      → o ≡ some doc
      → Ended parse_failed db.working.pages (some code) (fail_row snapshot code summary o db).1
  unfolding fail_row failed_row then_commit moved
  fail_row-Ended code summary o db at =
      rw
        (
          at,
          own,
          transition_allowed (failed_row code summary doc) parse_failed
              (failed_change snapshot code) db (leaves_parsing snapshot doc own).1,
        )
        (record {
          row = moved (failed_row code summary doc) parse_failed (failed_change snapshot code);
          committed_row = refl;
          working_row = refl;
          exit = refl;
          committed_pages = refl;
          coded = refl;
        })
