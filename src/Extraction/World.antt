-- ===== src/Extraction/World.antt =====
-- The rows of app/models/extraction.py, requirement.py and user.py, the session over them, and the
-- text functions of Python that extraction and review rely on.
use mathlib.Core.List.{reverse}
use rfp.Database.{DocumentPage}
use rfp.Prelude.{
  Bool, Option, String, Text, [], any_char, false, if◌then◌else◌, leb, none, not, some, str_eq,
  true, ℕ, ◌&&◌, ◌==◌, ◌||◌, ◌∷◌,
}
use rfp.Prelude.Dict.{Dict}

pub data CandidateStatus : Type 0 where
  proposed approved edited rejected superseded : CandidateStatus

decide_equal : Discrete CandidateStatus
decide_equal = hlevel

unfoldable pub CandidateStatus-discrete : Discrete CandidateStatus
unfolding decide_equal
CandidateStatus-discrete = decide_equal

pub data TaskStatus : Type 0 where
  task_open task_completed task_superseded : TaskStatus

pub data RunStatus : Type 0 where
  pending running run_completed run_failed : RunStatus

-- The counters that an extractor reports, which are columns of the run.
pub record ProviderUsage : Type 0 where
  pub provider_call_count : ℕ
  pub input_tokens : ℕ
  pub output_tokens : ℕ
  pub cache_creation_input_tokens : ℕ
  pub cache_read_input_tokens : ℕ
  pub duration_ms : ℕ

abbrev pub no_usage : ProviderUsage
no_usage = record {
  provider_call_count = 0;
  input_tokens = 0;
  output_tokens = 0;
  cache_creation_input_tokens = 0;
  cache_read_input_tokens = 0;
  duration_ms = 0;
}

pub record ExtractionRun : Type 0 where
  pub id : ℕ
  pub organization_id : ℕ
  pub project_id : ℕ
  pub document_id : ℕ
  pub status : RunStatus
  pub extraction_attempt_id : String
  pub input_snapshot_sha256 : String
  pub page_count : ℕ
  pub parser_version : Option String
  pub extraction_schema_version : String
  pub prompt_version : String
  pub provider : String
  pub model : String
  pub started_at : ℕ
  pub usage : ProviderUsage
  pub candidate_count : ℕ
  pub received_candidate_count : ℕ
  pub accepted_candidate_count : ℕ
  pub skipped_candidate_count : ℕ
  pub validation_issue_counts : Dict ℕ
  pub failure_code : Option String
  pub completed_at : Option ℕ

-- `confidence` is a float that is only carried along, as its bits.
pub record RequirementCandidate : Type 0 where
  pub id : ℕ
  pub organization_id : ℕ
  pub project_id : ℕ
  pub extraction_run_id : ℕ
  pub document_id : ℕ
  pub document_page_id : ℕ
  pub page_content_sha256 : String
  pub unit_kind : String
  pub source_locator : Text
  pub span_start : ℕ
  pub span_end : ℕ
  pub evidence_text : Text
  pub evidence_sha256 : String
  pub normalized_requirement_text : Text
  pub reviewer_edited_text : Option Text
  pub requirement_type : Option String
  pub confidence : Option ℕ
  pub uncertainty_reason : Option String
  pub extraction_schema_version : String
  pub candidate_status : CandidateStatus
  pub reviewed_at : Option ℕ
  pub reviewed_by : Option ℕ
  pub reviewer_comment : Option Text

pub record CandidateReviewTask : Type 0 where
  pub organization_id : ℕ
  pub project_id : ℕ
  pub candidate_id : ℕ
  pub extraction_run_id : ℕ
  pub task_type : String
  pub source_locator : Text
  pub assigned_to_id : Option ℕ
  pub status : TaskStatus
  pub resolved_at : Option ℕ

pub record Requirement : Type 0 where
  pub id : ℕ
  pub project_id : ℕ
  pub source_document_id : ℕ
  pub source_candidate_id : Option ℕ
  pub original_text : Text
  pub source_page : Option ℕ
  pub source_section : Text
  pub requirement_type : Option String
  pub status : String

pub record User : Type 0 where
  pub id : ℕ
  pub organization_id : ℕ
  pub is_active : Bool
  pub can_review_requirements : Bool

-- What Python and hashlib supply: `str.isspace` on a character, NFC, SHA-256 of the UTF-8 text, and
-- how an identifier, a number and a column's string are printed.
pub record TextOps : Type 0 where
  pub is_space : ℕ → Bool
  pub nfc : Text → Text
  pub sha256 : Text → String
  pub show_id : ℕ → Text
  pub show_number : ℕ → Text
  pub code_points : String → Text

-- `str.strip`
unfoldable pub lstrip : TextOps → Text → Text
lstrip ops [] = []
lstrip ops (c ∷ cs) = if ops.is_space c then lstrip ops cs else c ∷ cs

unfoldable pub strip : TextOps → Text → Text
unfolding lstrip
strip ops chars = reverse (lstrip ops (reverse (lstrip ops chars)))

abbrev pub is_empty : Text → Bool
is_empty [] = true
is_empty (c ∷ cs) = false

-- _DISALLOWED_CONTROL_CHARS of app/services/extraction_contract.py
unfoldable pub is_disallowed : ℕ → Bool
is_disallowed c =
    leb c 0x08
    || (c == 0x0b)
    || (c == 0x0c)
    || (leb 0x0e c && leb c 0x1f)
    || (leb 0x7f c && leb c 0x9f)

unfoldable pub find_unsafe_content : Text → Option String
find_unsafe_content chars =
    if any_char is_disallowed chars then some "CONTENT_REJECT_CONTROL_CHARS" else none

-- `not page.content_sha256 or page.content_sha256 != _sha256_text(page.content)`, negated.
unfoldable pub hash_matches : TextOps → DocumentPage → Bool
hash_matches ops page = elim page.content_sha256 [
  | none ↦ false
  | some h ↦ not (str_eq h "") && str_eq h (ops.sha256 page.content)
]
