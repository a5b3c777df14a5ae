-- ===== src/Parsing/Examples.antt =====
-- Tests of app/services/document_parsing.py, and its theorems at concrete inputs.
use rfp.Database.{
  Document, Status-discrete, clean, completed, enqueue, extraction_job, parsing, returned,
}
use rfp.Ingestion.{is_allowed, transition}
use rfp.Parsing.{owns, pages_of, persist_parse_results, prepare_parse_attempt, same_source}
use rfp.Parsing.Final.{ParseEvent, given_up, parse_events, parse_events_final, persisted, prepared}
use rfp.Parsing.World.{
  ParseAttemptSnapshot, ParseEnv, ParserResponse, clean_identifier_of, is_parsable, is_parsing,
}
use rfp.Prelude.{List, [], refl, some, ◌+◌, ◌∷◌, ◌≡◌}
use rfp.Samples.{db_of, with_status}

abbrev parse_env : ParseEnv
parse_env = record {
  parse_max_attempts = 3;
  now = 300;
  new_attempt_id = "a1";
  fresh_id = λ n. 11 + n;
  enqueue_extraction = λ n org_id db. enqueue (extraction_job n) db;
}

abbrev one_unit : ParserResponse
one_unit = record {
  units =
      record {
        sequence = 1;
        content = 84 ∷ [];
        unit_kind = "page";
        source_locator = 112 ∷ [];
        content_sha256 = "full";
      }
      ∷ [];
  total_units = 1;
  total_characters = 1;
  parser_version = "1.0.0";
}

abbrev first_attempt : ParseAttemptSnapshot
first_attempt = record {
  document_id = 1;
  org_id = 7;
  user_id = 3;
  clean_identifier = "q/1.upload";
  detected_mime = "application/pdf";
  sha256_digest = "d1";
  file_size_bytes = 4;
  parse_attempt_id = "a1";
  attempt_count = 1;
}

-- The first attempt gets its snapshot.
prepares :
    (prepare_parse_attempt parse_env (db_of (with_status clean))).0 ≡ returned (some first_attempt)
unfolding prepare_parse_attempt is_parsable transition Status-discrete is_allowed
prepares = refl

abbrev in_attempt : Document
in_attempt = record (with_status parsing) { parse_attempt_id = some "a1" }

persists_pages :
    (persist_parse_results parse_env first_attempt one_unit (db_of in_attempt)).1.committed.pages
    ≡ pages_of parse_env in_attempt 0 one_unit.units
unfolding persist_parse_results pages_of owns is_parsing same_source clean_identifier_of transition
    Status-discrete is_allowed
persists_pages = refl

abbrev late_events : List ParseEvent
late_events =
    prepared parse_env
    ∷ persisted parse_env first_attempt one_unit
    ∷ given_up first_attempt "PARSER_TIMEOUT" "timed out"
    ∷ []

parse_events_final_example :
    parse_events (db_of (with_status completed)) late_events ≡ db_of (with_status completed)
parse_events_final_example =
    parse_events_final late_events (db_of (with_status completed)) (with_status completed) refl refl
