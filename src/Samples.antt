-- ===== src/Samples.antt =====
-- Rows that the tests and the examples of several components start from.
use rfp.Database.{Db, Document, DocumentPage, ProposalProject, Status, Tables, quarantined}
use rfp.Prelude.{List, [], false, none, some}

abbrev pub blank_document : Document
blank_document = record {
  id = 1;
  project_id = 2;
  created_by_id = 3;
  display_filename = "bid.pdf";
  file_path = "q/1.upload";
  file_type = "application/pdf";
  doc_role = "rfp";
  processing_status = "pending_security_scan";
  approval_status = "PENDING";
  content = none;
  ingestion_status = quarantined;
  detected_content_type = some "application/pdf";
  sha256_digest = some "d1";
  file_size_bytes = some 4;
  quarantined_at = some 100;
  scan_status = none;
  scan_engine_version = none;
  scan_signature_version = none;
  scan_started_at = none;
  scan_completed_at = none;
  scan_attempt_count = 0;
  scan_digest_snapshot = none;
  content_policy_status = none;
  content_policy_version = none;
  rejection_reason_code = none;
  operator_failure_summary = none;
  promotion_started_at = none;
  promotion_completed_at = none;
  promotion_attempt_count = 0;
  clean_storage_identifier = none;
  cleanup_pending = false;
  parser_version = none;
  parser_completed_at = none;
  parse_started_at = none;
  parse_attempt_count = 0;
  parse_attempt_id = none;
  parse_error_code = none;
}

abbrev pub with_status : Status → Document
with_status s = record blank_document { ingestion_status = s }

abbrev pub sample_project : ProposalProject
sample_project = record { id = 2; organization_id = 7 }

abbrev pub tables_of : Document → List DocumentPage → Tables
tables_of doc pages = record {
  document = some doc;
  project = some sample_project;
  pages = pages;
  audit = [];
}

-- A session with nothing pending.
abbrev pub db_of : Document → Db
db_of doc = record {
  committed = tables_of doc [];
  working = tables_of doc [];
  queue = [];
  request_id = none;
}
