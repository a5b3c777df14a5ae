-- ===== src/Extraction.antt =====
-- Phase C of app/services/candidate_extraction.py: how the extractor's proposals are checked and
-- become candidates with review tasks, and how older proposals are superseded.
pub mod World
pub mod Plain
pub mod Sound
mod Account
pub mod Store
pub mod Samples
pub mod Persist
pub mod Service
mod Examples
use rfp.Database.{DocumentPage, status}
use rfp.Extraction.World.{
  CandidateReviewTask, RequirementCandidate, TextOps, find_unsafe_content, is_empty, proposed,
  strip, task_open,
}
use rfp.Prelude.{
  Bool, List, Option, String, Text, [], false, if◌then◌else◌, leb, length, ltb, none, or_else,
  same_text, slice, some, take, ℕ, ◌&&◌, ◌+◌, ◌==◌, ◌||◌, ◌∷◌,
}
use rfp.Prelude.Dict.{Dict, insert, lookup}

-- `CandidateUnit` of app/services/extraction_contract.py
pub record CandidateUnit : Type 0 where
  pub source_unit_sequence : ℕ
  pub span_start : ℕ
  pub span_end : ℕ
  pub requirement_text : Text
  pub requirement_type : Option String
  pub confidence : Option ℕ
  pub uncertainty_reason : Option String

abbrev pub max_requirement_text_len : ℕ
max_requirement_text_len = 2000

abbrev pub max_evidence_text_len : ℕ
max_evidence_text_len = 4000

-- The run that a phase C belongs to, and the identifiers that `uuid.uuid4` gives it in order.
pub record RunScope : Type 0 where
  pub ops : TextOps
  pub organization_id : ℕ
  pub project_id : ℕ
  pub document_id : ℕ
  pub run_id : ℕ
  pub fresh_id : ℕ → ℕ

pub record Span : Type 0 where
  pub sequence : ℕ
  pub first : ℕ
  pub last : ℕ
  pub head : Text

unfoldable pub same_span : Span → Span → Bool
same_span a b =
    (a.sequence == b.sequence)
    && (a.first == b.first)
    && (a.last == b.last)
    && same_text a.head b.head

unfoldable pub seen_before : List Span → Span → Bool
unfolding same_span
seen_before [] key = false
seen_before (s ∷ rest) key = same_span s key || seen_before rest key

-- The loop's variables; the newest row stands first.
pub record Build : Type 0 where
  pub seen_spans : List Span
  pub candidate_rows : List RequirementCandidate
  pub task_rows : List CandidateReviewTask
  pub issue_counts : Dict ℕ

abbrev pub no_rows : Build
no_rows = record { seen_spans = []; candidate_rows = []; task_rows = []; issue_counts = [] }

unfoldable pub skip : String → Build → Build
skip code b = record b {
  issue_counts = insert code (or_else (lookup code b.issue_counts) 0 + 1) b.issue_counts;
}

later_or : Option DocumentPage → DocumentPage → ℕ → Option DocumentPage
later_or (some p) page seq = some p
later_or none page seq = if page.page_number == seq then some page else none

-- `page_by_seq.get(seq)`: of pages with one number the last one counts.
unfoldable pub page_by_seq : List DocumentPage → ℕ → Option DocumentPage
unfolding later_or
page_by_seq [] seq = none
page_by_seq (page ∷ rest) seq = later_or (page_by_seq rest seq) page seq

unfoldable pub candidate_of :
    RunScope → DocumentPage → CandidateUnit → Text → Text → ℕ → RequirementCandidate
candidate_of scope page unit evidence req_text candidate_id = record {
  id = candidate_id;
  organization_id = scope.organization_id;
  project_id = scope.project_id;
  extraction_run_id = scope.run_id;
  document_id = scope.document_id;
  document_page_id = page.id;
  page_content_sha256 = or_else page.content_sha256 "";
  unit_kind = or_else page.unit_kind "";
  source_locator = or_else page.source_locator [];
  span_start = unit.span_start;
  span_end = unit.span_end;
  evidence_text = evidence;
  evidence_sha256 = scope.ops.sha256 evidence;
  normalized_requirement_text = req_text;
  reviewer_edited_text = none;
  requirement_type = unit.requirement_type;
  confidence = unit.confidence;
  uncertainty_reason = unit.uncertainty_reason;
  extraction_schema_version = "requirement-candidates-v1";
  candidate_status = proposed;
  reviewed_at = none;
  reviewed_by = none;
  reviewer_comment = none;
}

unfoldable pub task_of : RunScope → DocumentPage → ℕ → CandidateReviewTask
task_of scope page candidate_id = record {
  organization_id = scope.organization_id;
  project_id = scope.project_id;
  candidate_id = candidate_id;
  extraction_run_id = scope.run_id;
  task_type = "REQUIREMENT_CANDIDATE_REVIEW";
  source_locator = or_else page.source_locator [];
  assigned_to_id = none;
  status = task_open;
  resolved_at = none;
}

unfoldable pub accept : RunScope → DocumentPage → CandidateUnit → Text → Text → Build → Build
unfolding candidate_of task_of
accept scope page unit evidence req_text b =
    let candidate_id = scope.fresh_id (length b.candidate_rows) in
    record b {
      candidate_rows =
          candidate_of scope page unit evidence req_text candidate_id ∷ b.candidate_rows;
      task_rows = task_of scope page candidate_id ∷ b.task_rows;
    }

abbrev pub first_of : Option String → Option String → Option String
first_of none b = b
first_of (some a) b = some a

abbrev pub unless_rejected : Option String → Build → Build → Build
unless_rejected none b accepted = accepted
unless_rejected (some code) b accepted = skip code b

-- The content policy, after the span has been remembered.
content_checked : RunScope → DocumentPage → CandidateUnit → Text → Text → Build → Build
content_checked scope page unit evidence req_text b =
    unless_rejected (first_of (find_unsafe_content req_text) (find_unsafe_content evidence)) b
      (accept scope page unit evidence req_text b)

-- `dedup_key`
abbrev pub dedup_key : CandidateUnit → Text → Span
dedup_key unit req_text = record {
  sequence = unit.source_unit_sequence;
  first = unit.span_start;
  last = unit.span_end;
  head = take 100 req_text;
}

deduplicated : RunScope → DocumentPage → CandidateUnit → Text → Text → Build → Build
unfolding content_checked
deduplicated scope page unit evidence req_text b =
    if seen_before b.seen_spans (dedup_key unit req_text)
    then skip "SKIP_DUPLICATE_CANDIDATE" b
    else content_checked scope page unit evidence req_text
        (record b { seen_spans = dedup_key unit req_text ∷ b.seen_spans })

text_checked : RunScope → DocumentPage → CandidateUnit → Text → Build → Build
unfolding deduplicated
text_checked scope page unit evidence b =
    let req_text = strip scope.ops unit.requirement_text in
    if is_empty req_text || ltb max_requirement_text_len (length req_text)
    then skip "SKIP_REQUIREMENT_TEXT_BOUNDS" b
    else deduplicated scope page unit evidence req_text b

evidence_checked : RunScope → DocumentPage → CandidateUnit → Text → Build → Build
unfolding text_checked
evidence_checked scope page unit evidence b =
    if is_empty (strip scope.ops evidence)
    then skip "SKIP_EMPTY_EVIDENCE" b
    else if ltb max_evidence_text_len (length evidence)
    then skip "SKIP_EVIDENCE_TOO_LONG" b
    else text_checked scope page unit evidence b

on_page : RunScope → CandidateUnit → Option DocumentPage → Build → Build
unfolding evidence_checked
on_page scope unit none b = skip "SKIP_UNKNOWN_SOURCE_UNIT" b
on_page scope unit (some page) b =
    if ltb (length page.content) unit.span_end || leb unit.span_end unit.span_start
    then skip "SKIP_INVALID_SPAN" b
    else evidence_checked scope page unit (slice page.content unit.span_start unit.span_end) b

-- One round of the loop over `response.candidates`.
unfoldable pub build_step : RunScope → List DocumentPage → CandidateUnit → Build → Build
unfolding on_page
build_step scope pages unit b = on_page scope unit (page_by_seq pages unit.source_unit_sequence) b

unfoldable pub build : RunScope → List DocumentPage → List CandidateUnit → Build → Build
unfolding build_step
build scope pages [] b = b
build scope pages (unit ∷ rest) b = build scope pages rest (build_step scope pages unit b)
