-- ===== src/Review/Provenance.antt =====
-- A candidate that extraction kept passes the source check of a review, as long as its page, its
-- project and its run are what they were.
use rfp.Database.{DocumentPage, ProposalProject}
use rfp.Extraction.{RunScope}
use rfp.Extraction.Sound.{IsSound}
use rfp.Extraction.Store.{Rows, first_with}
use rfp.Extraction.World.{ExtractionRun, RequirementCandidate, TextOps, hash_matches}
use rfp.Prelude.{
  List, arith, eq_iff, false, leb, length, ltb, none, or_else, same_number, same_text_iff, slice,
  some, sym, true, ◌==◌, ◌||◌, ◌≡◌,
}
use rfp.Review.Checks.{
  evidence_holds, project_linked, revalidate_on, revalidate_source, run_applies,
}

all_hold :
    (ops : TextOps) (c : RequirementCandidate) (page : DocumentPage)
    → hash_matches ops page ≡ true
    → c.page_content_sha256 ≡ or_else page.content_sha256 ""
    → (ltb (length page.content) c.span_end || leb c.span_end c.span_start) ≡ false
    → c.evidence_text ≡ slice page.content c.span_start c.span_end
    → c.evidence_sha256 ≡ ops.sha256 c.evidence_text
    → evidence_holds ops c page ≡ true
unfolding evidence_holds
all_hold ops c page matches same_hash inside quoted hashed = ground (
  arith,
  matches,
  inside,
  eq_iff (or_else page.content_sha256 "") c.page_content_sha256,
  sym same_hash,
  same_text_iff (slice page.content c.span_start c.span_end) c.evidence_text,
  sym quoted,
  eq_iff (ops.sha256 c.evidence_text) c.evidence_sha256,
  sym hashed,
)

module _ (ops : TextOps) (c : RequirementCandidate) where
  run_applies-none :
      (run : ExtractionRun)
      → run.document_id ≡ c.document_id
      → run.organization_id ≡ c.organization_id
      → run_applies c (some run) ≡ none
  unfolding run_applies
  run_applies-none run d o = ground (arith, same_number d, same_number o)

-- Extraction and review agree on what evidence is: a candidate that the extraction loop kept is
-- accepted by `_revalidate_source` when the tables still hold, under the identifiers that it names,
-- the page that it quotes with its own digest, its project in its organization, and its run over
-- its document.
pub revalidate_source-IsSound :
    (scope : RunScope) (pages : List DocumentPage) (c : RequirementCandidate) (rows : Rows)
    (s : IsSound scope pages c) (project : ProposalProject) (run : ExtractionRun)
    → first_with (λ p. p.id == c.document_page_id) rows.pages ≡ some s.page
    → s.page.document_id ≡ c.document_id
    → hash_matches scope.ops s.page ≡ true
    → first_with (λ p. p.id == c.project_id) rows.projects ≡ some project
    → project.organization_id ≡ c.organization_id
    → first_with (λ r. r.id == c.extraction_run_id) rows.runs ≡ some run
    → run.document_id ≡ c.document_id
    → run.organization_id ≡ c.organization_id
    → revalidate_source scope.ops rows c ≡ none
unfolding revalidate_source revalidate_on project_linked
revalidate_source-IsSound scope pages c rows s project run at_page of_document matches at_project
      of_org at_run run_document run_org =
    rw
      (
        at_page,
        at_project,
        at_run,
        same_number of_document,
        same_number of_org,
        all_hold scope.ops c s.page matches s.page_hash s.addressable s.quoted s.hashed,
      )
      (run_applies-none scope.ops c run run_document run_org)
