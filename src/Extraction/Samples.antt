-- ===== src/Extraction/Samples.antt =====
-- One document with one page, and an extraction run over it, for tests and examples.
use rfp.Database.{DocumentPage, completed}
use rfp.Extraction.{CandidateUnit, RunScope}
use rfp.Extraction.Store.{Rows, Store}
use rfp.Extraction.World.{
  CandidateReviewTask, ExtractionRun, RequirementCandidate, TextOps, User, is_empty, no_usage,
  proposed, running, task_open,
}
use rfp.Prelude.{List, [], if◌then◌else◌, none, some, true, ◌+◌, ◌==◌, ◌∷◌}
use rfp.Samples.{sample_project, with_status}

abbrev pub sample_ops : TextOps
sample_ops = record {
  is_space = λ c. c == 32;
  nfc = λ chars. chars;
  sha256 = λ chars. if is_empty chars then "empty" else "full";
  show_id = λ n. n ∷ [];
  show_number = λ n. n ∷ [];
  code_points = λ s. [];
}

abbrev pub sample_page : DocumentPage
sample_page = record {
  id = 11;
  document_id = 1;
  page_number = 1;
  content = 32 ∷ 84 ∷ 104 ∷ 101 ∷ 32 ∷ [];
  unit_kind = some "page";
  source_locator = some (112 ∷ 49 ∷ []);
  content_sha256 = some "full";
}

abbrev pub sample_unit : CandidateUnit
sample_unit = record {
  source_unit_sequence = 1;
  span_start = 1;
  span_end = 4;
  requirement_text = 84 ∷ 104 ∷ 101 ∷ 32 ∷ [];
  requirement_type = none;
  confidence = none;
  uncertainty_reason = none;
}

-- A unit whose span leaves the page.
abbrev pub long_unit : CandidateUnit
long_unit = record sample_unit { span_end = 6 }

abbrev pub sample_scope : RunScope
sample_scope = record {
  ops = sample_ops;
  organization_id = 7;
  project_id = 2;
  document_id = 1;
  run_id = 21;
  fresh_id = λ n. 31 + n;
}

abbrev pub sample_run : ExtractionRun
sample_run = record {
  id = 21;
  organization_id = 7;
  project_id = 2;
  document_id = 1;
  status = running;
  extraction_attempt_id = "a1";
  input_snapshot_sha256 = "full";
  page_count = 1;
  parser_version = none;
  extraction_schema_version = "requirement-candidates-v1";
  prompt_version = "requirement-extraction-v1";
  provider = "fixture";
  model = "fixture-v1";
  started_at = 1;
  usage = no_usage;
  candidate_count = 0;
  received_candidate_count = 0;
  accepted_candidate_count = 0;
  skipped_candidate_count = 0;
  validation_issue_counts = [];
  failure_code = none;
  completed_at = none;
}

abbrev pub sample_candidate : RequirementCandidate
sample_candidate = record {
  id = 31;
  organization_id = 7;
  project_id = 2;
  extraction_run_id = 21;
  document_id = 1;
  document_page_id = 11;
  page_content_sha256 = "full";
  unit_kind = "page";
  source_locator = 112 ∷ 49 ∷ [];
  span_start = 1;
  span_end = 4;
  evidence_text = 84 ∷ 104 ∷ 101 ∷ [];
  evidence_sha256 = "full";
  normalized_requirement_text = 84 ∷ 104 ∷ 101 ∷ [];
  reviewer_edited_text = none;
  requirement_type = none;
  confidence = none;
  uncertainty_reason = none;
  extraction_schema_version = "requirement-candidates-v1";
  candidate_status = proposed;
  reviewed_at = none;
  reviewed_by = none;
  reviewer_comment = none;
}

-- A proposal of an earlier run.
abbrev pub old_candidate : RequirementCandidate
old_candidate = record sample_candidate { id = 30; extraction_run_id = 20 }

abbrev pub sample_task : CandidateReviewTask
sample_task = record {
  organization_id = 7;
  project_id = 2;
  candidate_id = 31;
  extraction_run_id = 21;
  task_type = "REQUIREMENT_CANDIDATE_REVIEW";
  source_locator = 112 ∷ 49 ∷ [];
  assigned_to_id = none;
  status = task_open;
  resolved_at = none;
}

abbrev pub sample_user : User
sample_user = record {
  id = 3;
  organization_id = 7;
  is_active = true;
  can_review_requirements = true;
}

abbrev pub rows_of : List RequirementCandidate → List CandidateReviewTask → Rows
rows_of candidates tasks = record {
  runs = sample_run ∷ [];
  documents = with_status completed ∷ [];
  pages = sample_page ∷ [];
  projects = sample_project ∷ [];
  users = sample_user ∷ [];
  candidates = candidates;
  review_tasks = tasks;
  requirements = [];
  audit = [];
}

-- A session with nothing pending.
abbrev pub store_of : Rows → Store
store_of rows = record { committed = rows; working = rows; request_id = none }
