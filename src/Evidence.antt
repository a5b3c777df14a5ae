-- ===== src/Evidence.antt =====
-- app/services/evidence_validation.py, first half: a snippet that a client submits as evidence is
-- checked against the stored text of the document that it cites.
pub mod Grounding
pub mod Search
pub mod Citable
pub mod Support
pub mod Tally
mod Examples
use rfp.Database.{Document, DocumentPage, Status, completed}
use rfp.Extraction.World.{TextOps, is_empty, strip}
use rfp.Prelude.{
  Bool, List, Option, String, Text, [], false, if◌then◌else◌, length, ltb, none, not, some, str_eq,
  take, true, ℕ, ◌&&◌, ◌==◌, ◌||◌, ◌∷◌,
}

-- `casefold` is str.casefold, and `split_sentences` the regular expression of extract_draft_claims.
pub record EvidenceOps : Type 0 where
  pub base : TextOps
  pub casefold : Text → Text
  pub split_sentences : Text → List Text

-- What the session sees.
pub record Library : Type 0 where
  pub documents : List Document
  pub stored_pages : List DocumentPage

abbrev pub snippet_min_len : ℕ
snippet_min_len = 10

abbrev pub snippet_max_len : ℕ
snippet_max_len = 2000

-- `re.sub(r"\s+", " ", text)`; the flag says that the character before was a space.
unfoldable pub collapse : (ℕ → Bool) → Bool → Text → Text
collapse is_space after_space [] = []
collapse is_space after_space (c ∷ cs) = elim (is_space c) [
  | false ↦ c ∷ collapse is_space false cs
  | true ↦ elim after_space [
    | true ↦ collapse is_space true cs
    | false ↦ 0x20 ∷ collapse is_space true cs
  ]
]

unfoldable pub normalize_evidence_text : EvidenceOps → Text → Text
normalize_evidence_text ops chars =
    if is_empty chars
    then []
    else ops.casefold (strip ops.base (collapse ops.base.is_space false chars))

unfoldable pub starts_with : Text → Text → Bool
starts_with [] haystack = true
starts_with (c ∷ cs) [] = false
starts_with (c ∷ cs) (d ∷ ds) = (c == d) && starts_with cs ds

-- `needle in haystack`
unfoldable pub contains : Text → Text → Bool
contains needle [] = is_empty needle
contains needle (c ∷ cs) = starts_with needle (c ∷ cs) || contains needle cs

unfoldable pub evidence_quote_exists_on_page : EvidenceOps → Text → Text → Bool
evidence_quote_exists_on_page ops snippet page_content =
    if is_empty snippet || is_empty page_content
    then false
    else contains (normalize_evidence_text ops snippet) (normalize_evidence_text ops page_content)

pub record EvidenceValidationError : Type 0 where
  pub status_code : ℕ
  pub detail : String

-- A result, or the exception.
pub data Checked {ℓ} (A : Type ℓ) : Type ℓ where
  granted : A → Checked A
  denied : EvidenceValidationError → Checked A

abbrev deny {ℓ} : {A : Type ℓ} → ℕ → String → Checked A
deny code why = denied (record { status_code = code; detail = why })

unfoldable pub document_with : ℕ → List Document → Option Document
document_with id [] = none
document_with id (doc ∷ docs) = if doc.id == id then some doc else document_with id docs

unfoldable pub page_with : ℕ → ℕ → List DocumentPage → Option DocumentPage
page_with id n [] = none
page_with id n (page ∷ pages) =
    if (page.document_id == id) && (page.page_number == n) then some page else page_with id n pages

-- A request: the requirement's project, the cited document and page, and the snippet.
pub record Citation : Type 0 where
  pub requirement_project_id : ℕ
  pub cited_document_id : ℕ
  pub cited_page : Option ℕ
  pub client_snippet : Text

abbrev is_completed_ingestion : Status → Bool
is_completed_ingestion completed = true
is_completed_ingestion _ = false

abbrev text_content : EvidenceOps → Option String → Option Text
text_content ops none = none
text_content ops (some s) = some (ops.base.code_points s)

on_content : EvidenceOps → Text → Option Text → Checked (Text × Option ℕ)
on_content ops stripped none =
    deny 400 "Document has no extracted text content; provide a page number"
on_content ops stripped (some doc_content) =
    if is_empty doc_content
    then deny 400 "Document has no extracted text content; provide a page number"
    else if evidence_quote_exists_on_page ops stripped doc_content
    then granted (stripped, none)
    else deny 400 "Evidence snippet not found in document content"

on_cited_page : EvidenceOps → Text → ℕ → Option DocumentPage → Checked (Text × Option ℕ)
on_cited_page ops stripped n none = deny 400 "Page number does not exist for this document"
on_cited_page ops stripped n (some page) =
    if evidence_quote_exists_on_page ops stripped page.content
    then granted (stripped, some n)
    else deny 400 "Evidence snippet not found on the specified page"

-- Step 5.
find_snippet : EvidenceOps → Library → Document → ℕ → Text → Option ℕ → Checked (Text × Option ℕ)
unfolding on_content on_cited_page
find_snippet ops library doc document_id stripped none =
    on_content ops stripped (text_content ops doc.content)
find_snippet ops library doc document_id stripped (some n) =
    on_cited_page ops stripped n (page_with document_id n library.stored_pages)

-- Step 4.
bounded_snippet : EvidenceOps → Library → Citation → Document → Text → Checked (Text × Option ℕ)
unfolding find_snippet
bounded_snippet ops library citation doc stripped =
    if ltb (length stripped) snippet_min_len
    then deny 422 "Evidence snippet is too short (minimum 10 characters)"
    else if ltb snippet_max_len (length stripped)
    then deny 422 "Evidence snippet is too long (maximum 2000 characters)"
    else find_snippet ops library doc citation.cited_document_id stripped citation.cited_page

-- Steps 2 and 3.
admitted : EvidenceOps → Library → Citation → Option Document → Checked (Text × Option ℕ)
unfolding bounded_snippet
admitted ops library citation none = deny 404 "Document not found"
admitted ops library citation (some doc) =
    if not (doc.project_id == citation.requirement_project_id)
    then deny 404 "Document not found"
    else if not (str_eq doc.processing_status "completed")
    then deny 400 "Document is not fully processed"
    else if str_eq doc.doc_role "knowledge_base" && not (str_eq doc.approval_status "APPROVED")
    then deny 400 "Document is not approved for use as evidence"
    else if not (is_completed_ingestion doc.ingestion_status)
    then deny 400 "Document has not completed security processing"
    else bounded_snippet ops library citation doc (strip ops.base citation.client_snippet)

unfoldable pub validate_evidence_candidate :
    EvidenceOps → Library → Citation → Checked (Text × Option ℕ)
unfolding admitted
validate_evidence_candidate ops library citation =
    admitted ops library citation (document_with citation.cited_document_id library.documents)

page_text : EvidenceOps → Option DocumentPage → Checked Text
page_text ops none = deny 400 "Page not found for document"
page_text ops (some page) = granted (take snippet_max_len (strip ops.base page.content))

unfoldable pub resolve_evidence_from_document_page : EvidenceOps → Library → ℕ → ℕ → Checked Text
unfolding page_text
resolve_evidence_from_document_page ops library document_id n =
    page_text ops (page_with document_id n library.stored_pages)

unfoldable pub require_same_project_evidence : ℕ → ℕ → Checked {0} Unit
require_same_project_evidence document_project_id requirement_project_id =
    if document_project_id == requirement_project_id
    then granted tt
    else deny 404 "Document not found"
