-- ===== src/Extraction/Store.antt =====
-- The tables that extraction and review write, and the session over them.
use rfp.Database.{AuditEvent, Document, DocumentPage, ProposalProject}
use rfp.Extraction.World.{
  CandidateReviewTask, ExtractionRun, Requirement, RequirementCandidate, TextOps, User,
}
use rfp.Prelude.{
  Bool, List, Option, String, Text, [], if◌then◌else◌, leb, none, or_else, some, ℕ, ◌++◌, ◌==◌, ◌∷◌,
}

pub record Rows : Type 0 where
  pub runs : List ExtractionRun
  pub documents : List Document
  pub pages : List DocumentPage
  pub projects : List ProposalProject
  pub users : List User
  pub candidates : List RequirementCandidate
  pub review_tasks : List CandidateReviewTask
  pub requirements : List Requirement
  pub audit : List AuditEvent

-- The rows that are committed and the rows as the session sees them. Rows are added at the front.
pub record Store : Type 0 where
  pub committed : Rows
  pub working : Rows
  pub request_id : Option String

abbrev pub commit_rows : Store → Store
commit_rows store = record store { committed = store.working }

abbrev pub rollback_rows : Store → Store
rollback_rows store = record store { working = store.committed }

-- The first row that passes a test, as `.first()` and `db.get` return it.
unfoldable pub first_with {ℓ} : {A : Type ℓ} → (A → Bool) → List A → Option A
first_with p [] = none
first_with p (x ∷ xs) = let rest = first_with p xs in if p x then some x else rest

unfoldable pub rows_with {ℓ} : {A : Type ℓ} → (A → Bool) → List A → List A
rows_with p [] = []
rows_with p (x ∷ xs) = let rest = rows_with p xs in if p x then x ∷ rest else rest

-- An assignment to the rows that pass a test.
unfoldable pub update_with {ℓ} : {A : Type ℓ} → (A → Bool) → (A → A) → List A → List A
update_with p f [] = []
update_with p f (x ∷ xs) = (if p x then f x else x) ∷ update_with p f xs

insert_page : DocumentPage → List DocumentPage → List DocumentPage
insert_page page [] = page ∷ []
insert_page page (p ∷ rest) =
    let later = insert_page page rest in
    if leb page.page_number p.page_number then page ∷ p ∷ rest else p ∷ later

-- `sorted(pages, key=lambda p: p.page_number)`
unfoldable pub sort_pages : List DocumentPage → List DocumentPage
unfolding insert_page
sort_pages [] = []
sort_pages (page ∷ rest) = insert_page page (sort_pages rest)

unfoldable pub load_ordered_pages : ℕ → List DocumentPage → List DocumentPage
load_ordered_pages document_id pages =
    sort_pages (rows_with (λ page. page.document_id == document_id) pages)

snapshot_line : TextOps → DocumentPage → Text
snapshot_line ops page =
    ops.show_id page.id
    ++ ops.code_points "|"
    ++ ops.show_number page.page_number
    ++ ops.code_points "|"
    ++ ops.code_points (or_else page.unit_kind "")
    ++ ops.code_points "|"
    ++ or_else page.source_locator []
    ++ ops.code_points "|"
    ++ ops.code_points (or_else page.content_sha256 "")
    ++ ops.code_points "\n"

snapshot_text : TextOps → List DocumentPage → Text
unfolding snapshot_line
snapshot_text ops [] = []
snapshot_text ops (page ∷ rest) = snapshot_line ops page ++ snapshot_text ops rest

unfoldable pub compute_snapshot_sha256 : TextOps → List DocumentPage → String
unfolding snapshot_text
compute_snapshot_sha256 ops pages = ops.sha256 (snapshot_text ops (sort_pages pages))
