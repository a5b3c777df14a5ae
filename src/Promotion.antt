-- ===== src/Promotion.antt =====
-- app/services/clean_storage_promotion.py: a document leaves quarantine for clean storage.
pub mod World
pub mod Landing
pub mod Verdict
pub mod Task
mod Examples
use rfp.Database.{
  Db, Document, Error, Exec, Outcome, ProposalProject, Status, clean, clean_pending_promotion,
  commit, ingestion_state_error, number, promoting, promotion_error, promotion_failed, raised,
  returned, save, text, unexpected, ◌>>=◌,
}
use rfp.Ingestion.{Change, transition}
use rfp.Prelude.{
  Bool, List, Option, String, [], false, if◌then◌else◌, none, not, some, str_eq, true, ℕ, ◌+◌, ◌==◌,
  ◌∷◌,
}
use rfp.Promotion.World.{CopyEnv, perform_staged_copy, refused}

-- What one call of `promote_document` finds, and what it is given. `source` is what resolving the
-- quarantine path yields: whether a file exists there, or an exception. `describe` is the message of
-- an exception with that code.
pub record PromotionEnv : Type 0 where
  pub copy : CopyEnv
  pub clean_root : Outcome {0} Unit
  pub source : Outcome Bool
  pub new_identifier : String
  pub describe : String → String
  pub started_at : ℕ
  pub completed_at : ℕ
  pub enqueue_parse : ℕ → Exec (Unit {0})
  pub unlinks : Bool
  pub org_id : ℕ
  pub user_id : Option ℕ

copied : PromotionEnv → String → ℕ → Outcome Bool → Outcome (List ℕ)
copied env digest size (raised e) = refused "PROMOTION_SOURCE_INVALID"
copied env digest size (returned false) = refused "PROMOTION_SOURCE_MISSING"
copied env digest size (returned true) = perform_staged_copy env.copy digest size

-- Step 2: the path of the source and the staged copy.
unfoldable pub copy_source : PromotionEnv → String → ℕ → Outcome (List ℕ)
unfolding copied
copy_source env digest size = copied env digest size env.source

-- The reason code under which a failure of step 2 is recorded.
unfoldable pub failure_code : Error → String
failure_code (promotion_error code) = code
failure_code _ = "PROMOTION_COPY_FAILED"

abbrev pub is_promoting : Status → Bool
is_promoting promoting = true
is_promoting _ = false

unfoldable pub is_promotable : Status → Bool
is_promotable clean_pending_promotion = true
is_promotable promoting = true
is_promotable promotion_failed = true
is_promotable _ = false

failure_change : PromotionEnv → String → Change
failure_change env code = record {
  org_id = env.org_id;
  user_id = env.user_id;
  reason_code = some code;
  safe_summary = some (env.describe code);
  audit_detail = [];
}

then_raise : Error → Outcome Document × Db → Outcome Document × Db
then_raise e (returned doc, db) = (raised e, db)
then_raise e (raised other_error, db) = (raised other_error, db)

-- The document is read again, and marked if it is still PROMOTING.
record_failure : PromotionEnv → String → Option Document → Exec Document
unfolding failure_change then_raise
record_failure env code none db = (refused code, db)
record_failure env code (some doc) db =
    if is_promoting doc.ingestion_status
    then then_raise (promotion_error code)
        (transition doc promotion_failed (failure_change env code) db)
    else (refused code, db)

-- `doc.clean_storage_identifier or ...`
identifier_or : Option String → String → String
identifier_or none fresh = fresh
identifier_or (some s) fresh = if str_eq s "" then fresh else s

-- Step 4, after the source could not be removed.
mark_cleanup : Option Document → Exec Document
mark_cleanup none db = (raised unexpected, db)
mark_cleanup (some doc) db =
    let doc' = record doc { cleanup_pending = true } in (returned doc', commit (save doc' db))

after_enqueue : PromotionEnv → Document → Outcome (Unit {0}) × Db → Outcome Document × Db
unfolding mark_cleanup
after_enqueue env doc (raised e, db) = (raised e, db)
after_enqueue env doc (returned r, db) =
    if env.unlinks then (returned doc, db) else mark_cleanup db.working.document db

pub after_clean : PromotionEnv → Outcome Document × Db → Outcome Document × Db
unfolding after_enqueue
after_clean env (raised e, db) = (raised e, db)
after_clean env (returned doc, db) = after_enqueue env doc (env.enqueue_parse doc.id db)

completed_row : PromotionEnv → String → Document → Document
completed_row env identifier doc = record doc {
  file_path = identifier;
  clean_storage_identifier = some identifier;
  promotion_completed_at = some env.completed_at;
}

clean_change : PromotionEnv → String → Change
clean_change env identifier = record {
  org_id = env.org_id;
  user_id = env.user_id;
  reason_code = none;
  safe_summary = none;
  audit_detail =
      ("clean_storage_identifier", text identifier) ∷ ("clean_file_path", text identifier) ∷ [];
}

-- Step 3: the document is read again and becomes CLEAN. Its path below the clean root is its
-- identifier.
complete : PromotionEnv → String → Option Document → Exec Document
unfolding completed_row clean_change after_clean
complete env identifier none db = (refused "PROMOTION_DATABASE_FAILED", db)
complete env identifier (some doc) db =
    if is_promoting doc.ingestion_status
    then after_clean env
        (transition (completed_row env identifier doc) clean (clean_change env identifier) db)
    else (refused "PROMOTION_DATABASE_FAILED", db)

after_copy : PromotionEnv → String → Outcome (List ℕ) → Exec Document
unfolding record_failure complete
after_copy env identifier (raised e) db = record_failure env (failure_code e) db.working.document db
after_copy env identifier (returned bytes) db = complete env identifier db.working.document db

with_root : PromotionEnv → String → ℕ → Document → Outcome {0} Unit → Exec Document
unfolding after_copy identifier_or
with_root env digest size doc (raised e) db = (raised e, db)
with_root env digest size doc (returned r) db =
    after_copy env (identifier_or doc.clean_storage_identifier env.new_identifier)
      (copy_source env digest size) db

claimed_row : PromotionEnv → Document → Document
claimed_row env doc = record doc {
  promotion_started_at = some env.started_at;
  promotion_attempt_count = doc.promotion_attempt_count + 1;
}

claim_change : PromotionEnv → Document → String → Change
claim_change env doc digest = record {
  org_id = env.org_id;
  user_id = env.user_id;
  reason_code = none;
  safe_summary = none;
  audit_detail =
      ("promotion_attempt", number (doc.promotion_attempt_count + 1))
      ∷ ("source_digest", text digest)
      ∷ [];
}

-- Step 1 after its checks, and what follows. From PROMOTING the move is a repetition, so that the
-- attempt is counted but not yet committed.
claimed : PromotionEnv → String → ℕ → Document → Exec Document
unfolding claimed_row claim_change with_root
claimed env digest size doc =
    transition (claimed_row env doc) promoting (claim_change env doc digest) >>= λ doc'.
    with_root env digest size doc' env.clean_root

with_file : PromotionEnv → Document → Option String → Option ℕ → Exec Document
unfolding claimed
with_file env doc (some digest) (some size) db =
    if str_eq digest ""
    then (refused "PROMOTION_SOURCE_INVALID", db)
    else claimed env digest size doc db
with_file env doc _ _ db = (refused "PROMOTION_SOURCE_INVALID", db)

with_project : PromotionEnv → Document → Option ProposalProject → Exec Document
unfolding with_file
with_project env doc none db = (refused "PROMOTION_TENANT_MISMATCH", db)
with_project env doc (some project) db =
    if not (project.organization_id == env.org_id)
    then (refused "PROMOTION_TENANT_MISMATCH", db)
    else if not (is_promotable doc.ingestion_status)
    then (raised ingestion_state_error, db)
    else with_file env doc doc.sha256_digest doc.file_size_bytes db

promoted_row : PromotionEnv → Option Document → Exec Document
unfolding with_project
promoted_row env none db = (refused "PROMOTION_SOURCE_MISSING", db)
promoted_row env (some doc) db = with_project env doc db.working.project db

unfoldable pub promote_document : PromotionEnv → Exec Document
unfolding promoted_row
promote_document env db = promoted_row env db.working.document db
