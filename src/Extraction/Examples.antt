-- ===== src/Extraction/Examples.antt =====
-- Tests of app/services/candidate_extraction.py, and its theorems at concrete inputs.
use rfp.Database.{extraction_service_error, raised, returned}
use rfp.Extraction.{accept, build, dedup_key, no_rows, page_by_seq, seen_before, skip}
use rfp.Extraction.Account.{build-accounted, total}
use rfp.Extraction.Persist.{
  all_hashes_match, complete_run, is_stale, mark_run_failed, persist_candidates,
  supersede_stale_candidates, superseded_candidate, write_rows,
}
use rfp.Extraction.Persist.Stale.{is_decided, supersede-is_decided, supersede_idempotent}
use rfp.Extraction.Samples.{
  long_unit, old_candidate, rows_of, sample_candidate, sample_page, sample_scope, sample_task,
  sample_unit, store_of,
}
use rfp.Extraction.Sound.{AllSound, build-AllSound}
use rfp.Extraction.Store.{
  Store, compute_snapshot_sha256, first_with, load_ordered_pages, rows_with, sort_pages,
  update_with,
}
use rfp.Extraction.World.{
  RequirementCandidate, edited, find_unsafe_content, hash_matches, is_disallowed, strip,
}
use rfp.Prelude.{[], any_char, length, refl, slice, ◌+◌, ◌∷◌, ◌≡◌}
use rfp.Prelude.Dict.{insert, lookup}

abbrev before_run : Store
before_run = store_of (rows_of (old_candidate ∷ []) [])

-- One unit is kept with its stripped text, the other is skipped.
keeps_one : build sample_scope (sample_page ∷ []) (sample_unit ∷ long_unit ∷ []) no_rows ≡ record {
  seen_spans = dedup_key sample_unit (84 ∷ 104 ∷ 101 ∷ []) ∷ [];
  candidate_rows = sample_candidate ∷ [];
  task_rows = sample_task ∷ [];
  issue_counts = ("SKIP_INVALID_SPAN", 1) ∷ [];
}
unfolding build page_by_seq skip strip insert slice seen_before find_unsafe_content any_char
    is_disallowed accept lookup
keeps_one = refl

-- The run's own attempt returns; the earlier proposal is superseded.
persists :
    ((persist_candidates sample_scope 9 "a1" "full" (sample_unit ∷ long_unit ∷ []) before_run).0
      ≡ returned tt)
    × ((persist_candidates sample_scope 9 "a1" "full"
          (sample_unit ∷ long_unit ∷ [])
          before_run).1.committed.candidates
        ≡ sample_candidate ∷ superseded_candidate old_candidate ∷ [])
unfolding persist_candidates first_with compute_snapshot_sha256 sort_pages load_ordered_pages
    rows_with all_hashes_match hash_matches build page_by_seq skip strip insert slice seen_before
    find_unsafe_content any_char is_disallowed accept lookup write_rows supersede_stale_candidates
    is_stale update_with mark_run_failed complete_run
persists = (refl, refl)

-- Another attempt is turned away.
stale_attempt :
    persist_candidates sample_scope 9 "a2" "full" (sample_unit ∷ []) before_run
    ≡ (raised (extraction_service_error "STALE_EXTRACTION_ATTEMPT"), before_run)
unfolding persist_candidates first_with compute_snapshot_sha256 sort_pages load_ordered_pages
    rows_with all_hashes_match hash_matches build page_by_seq skip strip insert slice seen_before
    find_unsafe_content any_char is_disallowed accept lookup write_rows supersede_stale_candidates
    is_stale update_with mark_run_failed complete_run
stale_attempt = refl

build-AllSound_example :
    AllSound sample_scope
      (sample_page ∷ [])
      (build sample_scope (sample_page ∷ []) (sample_unit ∷ long_unit ∷ []) no_rows)
build-AllSound_example =
    build-AllSound sample_scope (sample_page ∷ []) (sample_unit ∷ long_unit ∷ []) no_rows tt

build-accounted_example :
    length
        (build sample_scope
          (sample_page ∷ [])
          (sample_unit ∷ long_unit ∷ [])
          no_rows).candidate_rows
      + total
          (build sample_scope
            (sample_page ∷ [])
            (sample_unit ∷ long_unit ∷ [])
            no_rows).issue_counts
    ≡ 2
unfolding total
build-accounted_example =
    build-accounted sample_scope (sample_page ∷ []) (sample_unit ∷ long_unit ∷ []) no_rows

supersede_idempotent_example :
    supersede_stale_candidates sample_scope 10
      (supersede_stale_candidates sample_scope 9 before_run).1
    ≡ (0, (supersede_stale_candidates sample_scope 9 before_run).1)
supersede_idempotent_example = supersede_idempotent sample_scope 9 10 before_run

abbrev decided_candidate : RequirementCandidate
decided_candidate = record old_candidate { candidate_status = edited }

supersede-is_decided_example :
    rows_with is_decided
      (supersede_stale_candidates sample_scope 9
        (store_of (rows_of (old_candidate ∷ decided_candidate ∷ []) []))).1.working.candidates
    ≡ decided_candidate ∷ []
unfolding rows_with
supersede-is_decided_example =
    supersede-is_decided sample_scope 9
      (store_of (rows_of (old_candidate ∷ decided_candidate ∷ []) []))
