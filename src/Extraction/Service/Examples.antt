-- ===== src/Extraction/Service/Examples.antt =====
-- Tests of create_requirement_candidates of app/services/candidate_extraction.py, and its theorems at
-- concrete inputs.
use rfp.Database.{completed, extraction_service_error, raised}
use rfp.Extraction.{accept, build, candidate_of, page_by_seq, seen_before, skip, task_of}
use rfp.Extraction.Persist.{
  all_hashes_match, complete_run, is_stale, mark_run_failed, persist_candidates,
  supersede_stale_candidates, write_rows,
}
use rfp.Extraction.Samples.{
  long_unit, rows_of, sample_candidate, sample_ops, sample_page, sample_unit, store_of,
}
use rfp.Extraction.Service.{
  Answer, Extractor, ServiceCall, begun_run, create_requirement_candidates, extracted,
  extractor_crashed, is_same_run, new_run, record_extraction_audit, record_provider_usage,
  request_of, resumed, scope_of, source_unit_of, total_characters, with_answer,
}
use rfp.Extraction.Service.RunEnds.{RunEnds, create_requirement_candidates-RunEnds}
use rfp.Extraction.Store.{
  Store, compute_snapshot_sha256, first_with, load_ordered_pages, rows_with, sort_pages,
  update_with,
}
use rfp.Extraction.World.{find_unsafe_content, hash_matches, is_disallowed, no_usage, strip}
use rfp.Prelude.{[], any_char, false, refl, slice, some, true, ◌+◌, ◌∷◌, ◌≡◌}
use rfp.Prelude.Dict.{insert, lookup, update_dict}
use rfp.Samples.{with_status}

abbrev fixture : Answer → Extractor
fixture answer = record {
  provider_name = "fixture";
  model_name = "fixture-v1";
  extract = λ request. answer;
  reported = some (record no_usage { provider_call_count = 1 });
}

abbrev call_of : Answer → ServiceCall
call_of answer = record {
  ops = sample_ops;
  document_id = 1;
  organization_id = 7;
  run_id = 21;
  attempt_id = "a1";
  fresh_id = λ n. 31 + n;
  max_source_units = 5;
  max_input_chars = 100;
  extractor = fixture answer;
  now = 1;
  now_failed = 2;
  now_persisted = 3;
  meanwhile = λ rows. rows;
  takes = λ rows. true;
}

-- No run yet.
abbrev at_first : Store
at_first = store_of (record (rows_of [] []) { runs = [] })

abbrev both_units : Answer
both_units = extracted (sample_unit ∷ long_unit ∷ [])

-- The extractor proposes two units and one is kept.
extracts :
    (create_requirement_candidates (call_of both_units) at_first).1.committed.candidates
    ≡ sample_candidate ∷ []
unfolding create_requirement_candidates first_with load_ordered_pages rows_with sort_pages
    all_hashes_match hash_matches total_characters compute_snapshot_sha256 is_same_run begun_run
    record_extraction_audit new_run update_dict insert resumed with_answer record_provider_usage
    update_with persist_candidates scope_of build page_by_seq skip strip slice seen_before
    find_unsafe_content any_char is_disallowed accept lookup supersede_stale_candidates is_stale
    write_rows complete_run request_of source_unit_of candidate_of task_of mark_run_failed
extracts = refl

-- A second call finds the completed run.
extracts_once :
    (create_requirement_candidates
      (record (call_of both_units) { run_id = 22 })
      (create_requirement_candidates (call_of both_units) at_first).1).0
    ≡ raised (extraction_service_error "DUPLICATE_COMPLETED_RUN")
unfolding create_requirement_candidates first_with load_ordered_pages rows_with sort_pages
    all_hashes_match hash_matches total_characters compute_snapshot_sha256 is_same_run begun_run
    record_extraction_audit new_run update_dict insert resumed with_answer record_provider_usage
    update_with persist_candidates scope_of build page_by_seq skip strip slice seen_before
    find_unsafe_content any_char is_disallowed accept lookup supersede_stale_candidates is_stale
    write_rows complete_run request_of source_unit_of candidate_of task_of mark_run_failed
extracts_once = refl

-- Another tenant is refused before anything is read.
other_tenant :
    (create_requirement_candidates (record (call_of both_units) { organization_id = 8 }) at_first).0
    ≡ raised (extraction_service_error "TENANT_MISMATCH")
unfolding create_requirement_candidates first_with load_ordered_pages rows_with sort_pages
    all_hashes_match hash_matches total_characters compute_snapshot_sha256 is_same_run begun_run
    record_extraction_audit new_run update_dict insert resumed with_answer record_provider_usage
    update_with persist_candidates scope_of build page_by_seq skip strip slice seen_before
    find_unsafe_content any_char is_disallowed accept lookup supersede_stale_candidates is_stale
    write_rows complete_run request_of source_unit_of candidate_of task_of mark_run_failed
other_tenant = refl

-- Rows that the database refuses leave the run RUNNING.
refused_flush :
    (create_requirement_candidates
      (record (call_of both_units) { takes = λ rows. false })
      at_first).1.committed.runs
    ≡ record (new_run
        (call_of both_units)
        2
        (with_status completed)
        (sample_page ∷ [])
        (compute_snapshot_sha256 sample_ops (sample_page ∷ []))) {
          usage = record no_usage { provider_call_count = 1 };
        }
      ∷ []
unfolding create_requirement_candidates first_with load_ordered_pages rows_with sort_pages
    all_hashes_match hash_matches total_characters compute_snapshot_sha256 is_same_run begun_run
    record_extraction_audit new_run update_dict insert resumed with_answer record_provider_usage
    update_with persist_candidates scope_of build page_by_seq skip strip slice seen_before
    find_unsafe_content any_char is_disallowed accept lookup supersede_stale_candidates is_stale
    write_rows complete_run request_of source_unit_of candidate_of task_of mark_run_failed
refused_flush = refl

create_requirement_candidates-RunEnds_example :
    RunEnds
      (call_of extractor_crashed)
      at_first
      (create_requirement_candidates (call_of extractor_crashed) at_first)
create_requirement_candidates-RunEnds_example =
    create_requirement_candidates-RunEnds (call_of extractor_crashed) at_first (λ rows. refl)
      (λ rows. refl)
