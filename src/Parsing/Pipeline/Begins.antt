-- ===== src/Parsing/Pipeline/Begins.antt =====
-- The attempt that a parse job begins, and that it owns the document
-- (app/services/document_parsing.py).
use rfp.Database.{Db, Document, ProposalProject, Status, commit, parsing, returned, rollback}
use rfp.Ingestion.{is_allowed, moved}
use rfp.Ingestion.Step.{after_move, transition_allowed}
use rfp.Parsing.{
  begin_attempt, for_document, for_project, owns, prepare_parse_attempt, same_source, with_snapshot,
}
use rfp.Parsing.World.{
  ParseAttemptSnapshot, ParseEnv, begun_change, begun_row, clean_identifier_of, has_metadata,
  is_completed_status, is_parsable, is_parsing, snapshot_of,
}
use rfp.Prelude.{
  Option, String, ap, arith, eq_refl, false, is_some, leb, none, not, or_else, refl, some, str_eq,
  true, ℕ, ◌<◌, ◌∙◌, ◌≡◌,
}

-- A document that a job may parse.
pub record Parsable (env : ParseEnv) (db : Db) (doc : Document) (project : ProposalProject)
    : Type 0 where
  pub found : db.committed.document ≡ some doc
  pub in_project : db.committed.project ≡ some project
  pub parsable : is_parsable doc.ingestion_status ≡ true
  pub attempts_left : doc.parse_attempt_count < env.parse_max_attempts
  pub described : has_metadata doc ≡ true

-- The row of the attempt.
abbrev pub attempt_row : ParseEnv → Document → ProposalProject → Document
attempt_row env doc project =
    moved (begun_row env doc) parsing (begun_change env doc project.organization_id)

abbrev pub attempt_snapshot : ParseEnv → Document → ProposalProject → ParseAttemptSnapshot
attempt_snapshot env doc project =
    snapshot_of env (attempt_row env doc project) project.organization_id

begins_parsing :
    (s : Status)
    → is_parsable s ≡ true
    → (is_allowed s parsing ≡ true) × (is_completed_status s ≡ false)
unfolding is_parsable is_allowed is_completed_status
begins_parsing s e = ground (arith, e)

leb-false : (a b : ℕ) → b < a → leb a b ≡ false
leb-false a b h = ground (arith, h)

some_given : (o : Option String) → not (str_eq (or_else o "") "") ≡ true → is_some o ≡ true
some_given none e = absurd (ground (arith, e, eq_refl ""))
some_given (some s) e = refl

digest_given : (doc : Document) → has_metadata doc ≡ true → is_some doc.sha256_digest ≡ true
unfolding has_metadata
digest_given doc e = some_given doc.sha256_digest (ground (arith, e))

module _ (env : ParseEnv) (db : Db) (doc : Document) (project : ProposalProject)
    (p : Parsable env db doc project) where
  for_project-begins :
      (opened : Db)
      → for_project env doc (some project) opened ≡ (
        returned (some (attempt_snapshot env doc project)),
        commit (
            after_move
              (begun_row env doc)
              parsing
              (begun_change env doc project.organization_id)
              opened),
      )
  unfolding for_project begin_attempt with_snapshot begun_row
  for_project-begins opened =
      let (allowed, unfinished) = begins_parsing doc.ingestion_status p.parsable in
      rw
        (
          unfinished,
          p.parsable,
          leb-false env.parse_max_attempts doc.parse_attempt_count p.attempts_left,
          p.described,
          transition_allowed (begun_row env doc) parsing
              (begun_change env doc project.organization_id) opened allowed,
        )
        refl

  pub prepare-begins : prepare_parse_attempt env (rollback db) ≡ (
    returned (some (attempt_snapshot env doc project)),
    commit (
        after_move
          (begun_row env doc)
          parsing
          (begun_change env doc project.organization_id)
          (rollback db)),
  )
  unfolding prepare_parse_attempt for_document
  prepare-begins =
      ap (λ (o : Option Document). for_document env o (rollback db)) p.found
      ∙ ap (λ (o : Option ProposalProject). for_project env doc o (rollback db)) p.in_project
      ∙ for_project-begins (rollback db)

  pub attempt-owns : owns (attempt_snapshot env doc project) (attempt_row env doc project) ≡ true
  unfolding owns snapshot_of moved begun_row is_parsing
  attempt-owns = rw (eq_refl env.new_attempt_id) refl

  pub attempt-same_source :
      same_source (attempt_snapshot env doc project) (attempt_row env doc project) ≡ true
  unfolding same_source snapshot_of moved begun_row
  attempt-same_source =
      rw (eq_refl (clean_identifier_of doc), eq_refl (or_else doc.sha256_digest ""))
        (ground (arith, digest_given doc p.described))
