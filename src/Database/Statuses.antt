-- ===== src/Database/Statuses.antt =====
-- `IngestionStatus` of app/services/ingestion_state.py.

pub data Status : Type 0 where
  quarantined validating scanning : Status
  rejected_type rejected_malware rejected_content_policy scan_failed : Status
  clean_pending_promotion promoting promotion_failed clean : Status
  parsing parse_failed completed legacy_unverified : Status

decide_equal : Discrete Status
decide_equal = hlevel

unfoldable pub Status-discrete : Discrete Status
unfolding decide_equal
Status-discrete = decide_equal
