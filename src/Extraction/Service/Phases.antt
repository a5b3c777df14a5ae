-- ===== src/Extraction/Service/Phases.antt =====
-- The early returns of create_requirement_candidates (app/services/candidate_extraction.py), for any
-- property of its outcome.
use rfp.Database.{Document, DocumentPage, Outcome, ProposalProject}
use rfp.Extraction.Persist.{all_hashes_match, is_completed}
use rfp.Extraction.Service.{
  ServiceCall, begin_run, create_requirement_candidates, fail, input_limit_exceeded,
  total_characters, unless_done, with_document, with_owner, with_pages,
}
use rfp.Extraction.Store.{Store, compute_snapshot_sha256, load_ordered_pages, rollback_rows}
use rfp.Extraction.World.{ExtractionRun}
use rfp.Prelude.{
  List, Option, String, if_both, length, ltb, none, not, refl, some, ℕ, ◌==◌, ◌||◌, ◌≡◌,
}

module _ (call : ServiceCall) (store : Store) (P : Outcome (Option ExtractionRun) × Store → Type 0)
    (refuses : (code : String) → P (fail code (rollback_rows store)))
    (limits : (project_id : ℕ) (pages : List DocumentPage)
      → P (input_limit_exceeded call project_id pages store))
    (begins : (project_id : ℕ) (doc : Document) (pages : List DocumentPage) (snapshot : String)
      → pages ≡ load_ordered_pages call.document_id store.working.pages
      → snapshot ≡ compute_snapshot_sha256 call.ops pages
      → P (begin_run call project_id doc pages snapshot store)) where
  unless_done-by :
      (project_id : ℕ) (doc : Document) (pages : List DocumentPage) (snapshot : String)
      (o : Option ExtractionRun)
      → pages ≡ load_ordered_pages call.document_id store.working.pages
      → snapshot ≡ compute_snapshot_sha256 call.ops pages
      → P (unless_done call project_id doc pages snapshot o store)
  unfolding unless_done
  unless_done-by project_id doc pages snapshot none p s = begins project_id doc pages snapshot p s
  unless_done-by project_id doc pages snapshot (some run) p s = refuses "DUPLICATE_COMPLETED_RUN"

  with_pages-by :
      (project_id : ℕ) (doc : Document) (pages : List DocumentPage)
      → pages ≡ load_ordered_pages call.document_id store.working.pages
      → P (with_pages call project_id doc pages store)
  unfolding with_pages
  with_pages-by project_id doc pages p =
      if_both P (not (all_hashes_match call.ops pages)) _ _
        (λ _. refuses "PAGE_CONTENT_HASH_MISMATCH")
        (λ _.
          if_both P
            (ltb call.max_source_units (length pages)
              || ltb call.max_input_chars (total_characters pages))
            _ _ (λ _. limits project_id pages)
            (λ _.
              unless_done-by project_id doc pages (compute_snapshot_sha256 call.ops pages) _ p
                refl))

  with_owner-by : (doc : Document) (o : Option ProposalProject) → P (with_owner call doc o store)
  unfolding with_owner
  with_owner-by doc none = refuses "TENANT_MISMATCH"
  with_owner-by doc (some project) =
      if_both P (not (project.organization_id == call.organization_id)) _ _
        (λ _. refuses "TENANT_MISMATCH")
        (λ _.
          if_both P (not (is_completed doc.ingestion_status)) _ _
            (λ _. refuses "DOCUMENT_NOT_COMPLETED") (λ _. with_pages-by project.id doc _ refl))

  with_document-by : (o : Option Document) → P (with_document call o store)
  unfolding with_document
  with_document-by none = refuses "DOCUMENT_NOT_COMPLETED"
  with_document-by (some doc) = with_owner-by doc _

  pub create-by : P (create_requirement_candidates call store)
  unfolding create_requirement_candidates
  create-by = with_document-by _
