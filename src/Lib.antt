-- ===== src/Lib.antt =====
-- RFP Architect (app/): what happens to an uploaded document until a human has turned its text into
-- requirements. A document is quarantined, validated, scanned for malware and inspected, promoted to
-- clean storage, parsed into pages, and given to an extractor; the extractor's proposals become
-- candidates, and a reviewer's decision makes a requirement of a candidate. Every step moves the
-- document's status through one state machine, and the later steps run as queue jobs that can be
-- delivered again.
--
-- The files and the code that they model:
--   Prelude, Prelude/Dict: tests, options, texts as code points, and Python dictionaries.
--   Database: the rows of app/models/document.py, audit.py and project.py, and a session on one
--     document's tables with what is committed and what is pending; `raised` is an exception.
--   Ingestion: app/services/ingestion_state.py. `allowed_transitions` is ALLOWED_TRANSITIONS and
--     `transition` is transition(), with its audit event and its commit; `transition_named` takes
--     the status as text, where an unknown name is an error. Names, Step, Trail and Routes hold the
--     lemmas and theorems.
--   Scan: app/services/malware_scan.py. Scan/World has the settings, the scanner, the inspectors and
--     the files, and the digest and staleness checks; Scan has run_scan with _run_scan_body,
--     _run_content_policy and _fail_scan; Scan/Task has prepare_scan_attempt, scan_document_task of
--     app/worker.py, and _handle_scan_enqueue_failure of app/core/queue.py. Scan/Verdict states what
--     a scan should decide without any state; Intact, Attempt, Result, Clearance and Bound are proofs.
--   Clamav: app/services/clamav_client.py, scan_stream over the answers of the socket and the file;
--     Clamav/Version has check_connectivity, get_version_info and the parsing of its reply. Clamav/Wire
--     reads the bytes on the wire back; Cleared and Lines are proofs.
--   Promotion: app/services/clean_storage_promotion.py. Promotion/World is _perform_staged_copy over
--     the answers of the file system, Promotion is promote_document, Promotion/Verdict its proofs;
--     Promotion/Task is promote_document_task of app/worker.py with the enqueue failure of
--     app/core/queue.py.
--   Parsing: app/services/document_parsing.py. Parsing is prepare_parse_attempt, persist_parse_results
--     and fail_parse_attempt, Parsing/World the data, Parsing/Pipeline run_parse_pipeline_async with the
--     parser as a parameter; Described, Owner, Final, Pipeline/Begins and Pipeline/Lands are proofs.
--   Extraction: app/services/candidate_extraction.py. Extraction is the loop over the proposals;
--     Extraction/World has the rows and the text functions, Extraction/Store the tables and the
--     snapshot digest; Extraction/Persist has _mark_run_failed, _supersede_stale_candidates and
--     _persist_candidates; Extraction/Service is create_requirement_candidates around them, with the
--     checks, the run, the extractor as a parameter and the commits of others meanwhile. Phases,
--     Outcomes and RunEnds are proofs, as are Extraction/Plain, Sound and Account and Persist's Stale,
--     Atomic and RunEnds.
--   Review: app/services/candidate_review.py. Review/Checks has the reviewer's authorization (of
--     app/core/security.py), the checks of words and comment, and _revalidate_source; Review/Write
--     has what a decision writes, and Review has review_requirement_candidate. Review/Provenance
--     ties extraction and review together.
--   Reviewers: app/cli/requirement_reviewer.py, the command that grants and revokes the capability to
--     review; Target and Settles are proofs.
--   Throttle: app/core/sessions/throttling.py, the counters of InMemoryThrottleStore and LoginThrottle,
--     apart from the pipeline: what limits the logins of those who review.
--   Evidence: app/services/evidence_validation.py. Evidence is validate_evidence_candidate with the
--     normalization and the quote search; Evidence/Grounding the claims of a draft and their support.
--     Search, Citable, Support and Tally are proofs.
--   Sessions: app/core/sessions, models.py and the in-memory store of store.py; Sessions/Middleware is
--     ServerSessionMiddleware.dispatch, where each call of the store may fail. Its Evolution and Keeps
--     follow one record through a request, Fixation, Lifetime, Indexed, IndexKept and Revocation
--     follow runs of requests.
--   Guards: app/core/client_ip.py; Guards/Host is host_validation.py and Guards/Csrf csrf.py. Address
--     and Trusted are proofs.
--
-- Identifiers, times and file names are numbers, and texts that are only compared are strings. Texts
-- that are sliced or searched are lists of code points, so that spans mean what they mean in Python.
-- An exception is a value; each function shows in its clauses which writes stand before it. A
-- session reads its own pending changes, a commit makes them permanent and a rollback drops them.
-- Loops are recursion on the list that the code walks. Only Clamav/Wire, which reads the scanner's
-- protocol back, has fuel: one unit for each length it reads, one more than the reads of the file.
--
-- Parameters, since their code is not in the repository or is I/O: clamd and the sockets (Scan
-- takes the result of the ClamAV client as a parameter too), the PDF and DOCX inspectors, the file
-- system, SHA-256, NFC and str.isspace, the identifiers of uuid4, the clock and the settings. Of
-- the calls that queue the next step the theorems assume only that they leave the document tables
-- alone.
--
-- Not modelled: failures of the database, except that it refuses the rows of a parse result or of an
-- extraction (`takes`), and the effect of row locks (each call runs alone, and redeliveries are
-- sequences of calls, with workers that die after the count of a scan attempt); log lines; the
-- upload; the parser service and its client; the Redis session store, whose index expires; the web
-- pages.
mod Prelude
pub mod Database
mod Samples
pub mod Ingestion
pub mod Scan
pub mod Promotion
pub mod Parsing
pub mod Extraction
pub mod Review
pub mod Reviewers
pub mod Throttle
pub mod Evidence
pub mod Sessions
pub mod Guards
pub mod Clamav
