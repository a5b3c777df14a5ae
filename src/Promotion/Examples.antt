-- ===== src/Promotion/Examples.antt =====
-- Tests of app/services/clean_storage_promotion.py, and its theorems at concrete inputs.
use rfp.Database.{
  Db, Status-discrete, clean_pending_promotion, enqueue, parse_job, promotion_failed, returned,
}
use rfp.Ingestion.{is_allowed, transition}
use rfp.Prelude.{[], false, none, refl, some, true, ◌∷◌, ◌≡◌}
use rfp.Promotion.{PromotionEnv, copy_source, failure_code, is_promotable, promote_document}
use rfp.Promotion.Landing.{Landed, QuietParse}
use rfp.Promotion.Task.{handle_promotion_enqueue_failure, promote_document_task}
use rfp.Promotion.Task.Recovers.{QueueFailed, enqueue_failure_recovers}
use rfp.Promotion.Verdict.{promote_document-Landed}
use rfp.Promotion.World.{
  CopyEnv, IsCopy, absent, digest_is, perform_staged_copy, perform_staged_copy-IsCopy, refused,
  written_all,
}
use rfp.Samples.{db_of, sample_project, with_status}
use rfp.Scan.World.{read_all}

abbrev good_copy : CopyEnv
good_copy = record {
  sha256 = λ bytes. "D1";
  lower = λ s. "d1";
  is_contained = true;
  destination = absent;
  open_source = some (record {
    is_regular = true;
    st_size = 4;
    chunks = returned ((1 ∷ 2 ∷ 3 ∷ []) ∷ (4 ∷ []) ∷ [] ∷ []);
  });
  opens_partial = true;
  syncs = true;
  replaces = true;
  written = λ n chunk. chunk;
}

abbrev promotion_env : PromotionEnv
promotion_env = record {
  copy = good_copy;
  clean_root = returned tt;
  source = returned true;
  new_identifier = "n1.clean";
  describe = λ code. code;
  started_at = 200;
  completed_at = 201;
  enqueue_parse = λ n db. (returned tt, enqueue (parse_job n) db);
  unlinks = false;
  org_id = 7;
  user_id = none;
}

-- The source is gone.
abbrev missing_env : PromotionEnv
missing_env = record promotion_env { source = returned false }

abbrev waiting : Db
waiting = db_of (with_status clean_pending_promotion)

copies : perform_staged_copy good_copy "d1" 4 ≡ returned (1 ∷ 2 ∷ 3 ∷ 4 ∷ [])
unfolding perform_staged_copy read_all digest_is written_all
copies = refl

-- A write that is cut short goes unnoticed.
short_write :
    perform_staged_copy (record good_copy { written = λ n chunk. [] }) "d1" 4 ≡ returned []
unfolding perform_staged_copy read_all digest_is written_all
short_write = refl

-- A file that was cut short is not taken.
cut_short : perform_staged_copy good_copy "d1" 5 ≡ refused "PROMOTION_DIGEST_MISMATCH"
unfolding perform_staged_copy
cut_short = refl

missing_source : (promote_document missing_env waiting).0 ≡ refused "PROMOTION_SOURCE_MISSING"
unfolding promote_document is_promotable transition Status-discrete is_allowed copy_source
    failure_code
missing_source = refl

perform_staged_copy-IsCopy_example : IsCopy good_copy "d1" 4 (1 ∷ 2 ∷ 3 ∷ 4 ∷ [])
unfolding perform_staged_copy read_all digest_is written_all
perform_staged_copy-IsCopy_example =
    perform_staged_copy-IsCopy good_copy "d1" 4 (λ n chunk. refl) (1 ∷ 2 ∷ 3 ∷ 4 ∷ []) refl

missing_env-QuietParse : QuietParse missing_env
missing_env-QuietParse = record { same_rows = λ n db. (refl, refl) }

promote_document-Landed_example :
    Landed 1 promotion_failed "PROMOTION_SOURCE_MISSING" (promote_document missing_env waiting).1
unfolding copy_source is_promotable failure_code
promote_document-Landed_example =
    promote_document-Landed missing_env waiting (with_status clean_pending_promotion) sample_project
      "d1" 4 missing_env-QuietParse refl refl refl refl refl refl refl refl

-- The promotion was not queued, and a later job finds no source.
enqueue_failure_recovers_example :
    QueueFailed
      (with_status clean_pending_promotion)
      sample_project
      (handle_promotion_enqueue_failure waiting)
    × Landed 1 promotion_failed "PROMOTION_SOURCE_MISSING"
        (promote_document_task missing_env (handle_promotion_enqueue_failure waiting)).1
unfolding copy_source failure_code
enqueue_failure_recovers_example =
    enqueue_failure_recovers missing_env waiting (with_status clean_pending_promotion)
      sample_project "d1" 4 missing_env-QuietParse refl refl refl refl refl refl refl
