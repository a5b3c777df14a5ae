-- ===== src/Ingestion/Names.antt =====
-- The status texts of app/services/ingestion_state.py against the statuses.
use rfp.Database.{Status, quarantined}
use rfp.Ingestion.{status_name, status_named}
use rfp.Prelude.{refl, some, ◌≡◌}

-- Reading the text of any status gives that status back.
pub status_named-status_name : (s : Status) → status_named (status_name s) ≡ some s
unfolding status_named
status_named-status_name quarantined = refl
status_named-status_name _ = refl
