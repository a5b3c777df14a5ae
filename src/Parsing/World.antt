-- ===== src/Parsing/World.antt =====
-- The parser's response, the attempt's snapshot, and the rows that app/services/document_parsing.py
-- writes when an attempt begins.
use rfp.Database.{Db, Document, Status, clean, completed, number, parse_failed, parsing, text}
use rfp.Ingestion.{Change}
use rfp.Prelude.{
  Bool, List, Option, String, Text, [], false, if◌then◌else◌, none, not, or_else, some, str_eq,
  true, ℕ, ◌&&◌, ◌+◌, ◌==◌, ◌∷◌,
}

-- `ParserUnit` of app/parser_service/contracts.py
pub record ParserUnit : Type 0 where
  pub sequence : ℕ
  pub content : Text
  pub unit_kind : String
  pub source_locator : Text
  pub content_sha256 : String

pub record ParserResponse : Type 0 where
  pub units : List ParserUnit
  pub total_units : ℕ
  pub total_characters : ℕ
  pub parser_version : String

pub record ParseAttemptSnapshot : Type 0 where
  pub document_id : ℕ
  pub org_id : ℕ
  pub user_id : ℕ
  pub clean_identifier : String
  pub detected_mime : String
  pub sha256_digest : String
  pub file_size_bytes : ℕ
  pub parse_attempt_id : String
  pub attempt_count : ℕ

-- The setting, the clock, the attempt's `uuid4().hex`, the identifiers of new pages, and the queue.
pub record ParseEnv : Type 0 where
  pub parse_max_attempts : ℕ
  pub now : ℕ
  pub new_attempt_id : String
  pub fresh_id : ℕ → ℕ
  pub enqueue_extraction : ℕ → ℕ → Db → Db

unfoldable pub is_completed_status : Status → Bool
is_completed_status completed = true
is_completed_status _ = false

unfoldable pub is_parsable : Status → Bool
is_parsable clean = true
is_parsable parse_failed = true
is_parsable _ = false

unfoldable pub is_parsing : Status → Bool
is_parsing parsing = true
is_parsing _ = false

-- `a or b` of a text that may be missing or empty.
unfoldable pub text_or : Option String → String → String
text_or none d = d
text_or (some s) d = if str_eq s "" then d else s

unfoldable pub clean_identifier_of : Document → String
unfolding text_or
clean_identifier_of doc = text_or doc.clean_storage_identifier doc.file_path

unfoldable pub has_metadata : Document → Bool
unfolding clean_identifier_of
has_metadata doc =
    not (str_eq (clean_identifier_of doc) "")
    && not (str_eq (or_else doc.sha256_digest "") "")
    && not (or_else doc.file_size_bytes 0 == 0)

unfoldable pub begun_row : ParseEnv → Document → Document
begun_row env doc = record doc {
  parse_started_at = some env.now;
  parse_attempt_count = doc.parse_attempt_count + 1;
  parse_attempt_id = some env.new_attempt_id;
}

unfoldable pub begun_change : ParseEnv → Document → ℕ → Change
begun_change env doc org_id = record {
  org_id = org_id;
  user_id = some doc.created_by_id;
  reason_code = none;
  safe_summary = none;
  audit_detail =
      ("parse_attempt_id", text env.new_attempt_id)
      ∷ ("attempt", number (doc.parse_attempt_count + 1))
      ∷ [];
}

unfoldable pub snapshot_of : ParseEnv → Document → ℕ → ParseAttemptSnapshot
unfolding text_or clean_identifier_of
snapshot_of env doc org_id = record {
  document_id = doc.id;
  org_id = org_id;
  user_id = doc.created_by_id;
  clean_identifier = clean_identifier_of doc;
  detected_mime = text_or doc.detected_content_type doc.file_type;
  sha256_digest = or_else doc.sha256_digest "";
  file_size_bytes = or_else doc.file_size_bytes 0;
  parse_attempt_id = env.new_attempt_id;
  attempt_count = doc.parse_attempt_count;
}
