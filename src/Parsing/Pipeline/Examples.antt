-- ===== src/Parsing/Pipeline/Examples.antt =====
-- Tests of the parse job, and its theorem at a concrete input.
use rfp.Database.{Db, Document, Status, Status-discrete, clean, parse_job, parsing}
use rfp.Ingestion.{is_allowed, transition}
use rfp.Parsing.{fail_parse_attempt, owns, prepare_parse_attempt, same_source}
use rfp.Parsing.Pipeline.{
  ParserAnswer, PipelineCall, client_error, is_transient, parsed, reopened, replaces,
  run_parse_pipeline, with_parser,
}
use rfp.Parsing.World.{ParseEnv, ParserResponse, is_parsable, is_parsing}
use rfp.Prelude.{Option, [], false, none, refl, some, true, ◌+◌, ◌∷◌, ◌≡◌}
use rfp.Samples.{db_of, with_status}

abbrev job_env : ParseEnv
job_env = record {
  parse_max_attempts = 3;
  now = 300;
  new_attempt_id = "a1";
  fresh_id = λ n. 11 + n;
  enqueue_extraction = λ n org_id db. db;
}

abbrev job_of : ParserAnswer → PipelineCall
job_of answer = record {
  env = job_env;
  parser = λ snapshot. answer;
  meanwhile = λ t. t;
  up = true;
  describe_error = λ e. "error";
  takes = λ answer. true;
}

abbrev no_units : ParserResponse
no_units = record { units = []; total_units = 0; total_characters = 0; parser_version = "1.0.0" }

abbrev status_in : Option Document → Status
status_in none = clean
status_in (some doc) = doc.ingestion_status

abbrev clean_db : Db
clean_db = db_of (with_status clean)

-- A parser that cannot be reached costs an attempt, and the job is queued again; another refusal is not
-- retried.
retries :
    ((run_parse_pipeline (job_of (client_error "PARSER_TIMEOUT" "m")) clean_db).1.queue
      ≡ parse_job 1 ∷ [])
    × ((run_parse_pipeline (job_of (client_error "PARSER_REJECTED" "m")) clean_db).1.queue ≡ [])
unfolding run_parse_pipeline prepare_parse_attempt is_parsable transition Status-discrete is_allowed
    with_parser fail_parse_attempt reopened owns is_parsing is_transient
retries = (refl, refl)

-- Pages that the database refuses leave the document PARSING.
refused_pages :
    status_in
      (run_parse_pipeline
        (record (job_of (parsed no_units)) { takes = λ answer. false })
        clean_db).1.committed.document
    ≡ parsing
unfolding run_parse_pipeline prepare_parse_attempt is_parsable transition Status-discrete is_allowed
    with_parser replaces same_source reopened owns is_parsing
refused_pages = refl
