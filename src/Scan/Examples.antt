-- ===== src/Scan/Examples.antt =====
-- Tests of app/services/malware_scan.py, and its theorems at concrete inputs.
use rfp.Database.{
  clean_pending_promotion, enqueue, promotion_job, raised, returned, scanning, unexpected,
}
use rfp.Prelude.{List, [], arith, false, none, refl, some, true, ◌↔◌, ◌∷◌, ◌≡◌}
use rfp.Samples.{db_of, with_status}
use rfp.Scan.{run_scan}
use rfp.Scan.Attempt.{Ended, QueueOnly}
use rfp.Scan.Bound.{AreWorkers, IsBounded, scan_calls-IsBounded}
use rfp.Scan.Clearance.{Cleared, verdict_iff}
use rfp.Scan.Result.{run_scan-verdict}
use rfp.Scan.Task.{ScanCall, crashed, delivered, enqueue_failed, scan_calls}
use rfp.Scan.Verdict.{is_exit, verdict}
use rfp.Scan.World.{
  ScanEnv, ScanOutcome, at_path, digest_of, is_signature_stale, same_digest, verified_at,
}

abbrev clean_env : ScanEnv
clean_env = record {
  scan_max_attempts = 3;
  max_signature_age_seconds = 86400;
  resolve = λ _. at_path 1;
  is_file = λ _. true;
  open_file = λ _. some ((1 ∷ 2 ∷ []) ∷ (3 ∷ 4 ∷ []) ∷ [] ∷ []);
  sha256 = λ _. "d1";
  version_info = returned (
      some (record {
        engine_version = some "1.4";
        signature_version = some "27";
        signature_timestamp = some 900;
      }));
  scan_stream = λ _. returned (record {
    outcome = ScanOutcome.clean;
    signature_name = none;
    engine_version = none;
    signature_version = none;
  });
  check_pdf = λ _. returned (record { passed = true; reason_code = none; policy_version = "p1" });
  check_docx = λ _. raised unexpected;
  enqueue_promotion = λ n db. (returned tt, enqueue (promotion_job n) db);
  started_at = 1000;
  checked_at = 1001;
  scanned_at = 1002;
  failed_at = 1003;
}

clean_env-QueueOnly : QueueOnly clean_env
clean_env-QueueOnly = record { same_rows = λ n db. (refl, refl) }

-- The same surroundings with a scanner call that raises.
abbrev broken_env : ScanEnv
broken_env = record clean_env { scan_stream = λ _. raised unexpected }

broken_env-QueueOnly : QueueOnly broken_env
broken_env-QueueOnly = record { same_rows = λ n db. (refl, refl) }

clean_verdict : verdict clean_env (with_status scanning) ≡ clean_pending_promotion
unfolding verdict is_signature_stale verified_at same_digest digest_of
clean_verdict = refl

run_scan-verdict_example :
    Ended 1
      (verdict broken_env (with_status scanning))
      (run_scan broken_env 7 (db_of (with_status scanning))).1
    × (is_exit (verdict broken_env (with_status scanning)) ≡ true)
run_scan-verdict_example =
    run_scan-verdict broken_env 7 (with_status scanning) (db_of (with_status scanning))
      broken_env-QueueOnly refl refl

verdict_iff_example :
    (verdict clean_env (with_status scanning) ≡ clean_pending_promotion)
    ↔ Cleared clean_env (with_status scanning)
verdict_iff_example = verdict_iff clean_env (with_status scanning)

abbrev three_calls : List ScanCall
three_calls = delivered broken_env true ∷ crashed broken_env ∷ enqueue_failed clean_env false ∷ []

three_calls-workers : AreWorkers 3 three_calls
three_calls-workers = (
  record { setting = omega arith; quiet = broken_env-QueueOnly },
  (
    record { setting = omega arith; quiet = broken_env-QueueOnly },
    (record { setting = omega arith; quiet = clean_env-QueueOnly }, tt),
  ),
)

start-IsBounded : IsBounded 3 (db_of (with_status scanning))
start-IsBounded = record {
  row = some (with_status scanning);
  committed_row = refl;
  working_row = refl;
  bounded = (omega arith, λ _. omega arith);
}

scan_calls-IsBounded_example : IsBounded 4 (scan_calls (db_of (with_status scanning)) three_calls)
scan_calls-IsBounded_example =
    scan_calls-IsBounded 3 (db_of (with_status scanning)) three_calls three_calls-workers
      start-IsBounded
