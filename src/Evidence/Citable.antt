-- ===== src/Evidence/Citable.antt =====
-- What validate_evidence_candidate of app/services/evidence_validation.py accepts, and how it answers
-- the rest.
use mathlib.Core.Option.{some-injective}
use mathlib.Core.Path.{subst}
use rfp.Database.{Document, DocumentPage}
use rfp.Evidence.{
  Checked, Citation, EvidenceOps, Library, admitted, bounded_snippet, denied, document_with,
  evidence_quote_exists_on_page, find_snippet, granted, is_completed_ingestion, on_cited_page,
  on_content, page_with, snippet_max_len, snippet_min_len, text_content,
  validate_evidence_candidate,
}
use rfp.Evidence.Search.{evidence_quote_exists_on_page_iff}
use rfp.Extraction.World.{strip}
use rfp.Prelude.{
  Bool-cases, Option, Text, [], ap, arith, false, if_both, inl, inr, length, ltb, none, not, refl,
  some, str_eq, sym, true, ℕ, ◌&&◌, ◌<◌, ◌==◌, ◌∙◌, ◌∷◌, ◌≡◌, ◌≤◌, ◌⊎◌,
}

module _ (ops : EvidenceOps) (library : Library) (citation : Citation) where
  abbrev pub stripped : Text
  stripped = strip ops.base citation.client_snippet

  abbrev pub InContent : Option Text → Type 0
  InContent o =
      (content : Text) × (o ≡ some content)
      × (evidence_quote_exists_on_page ops stripped content ≡ true)

  abbrev pub InPage : Option DocumentPage → Type 0
  InPage o =
      (page : DocumentPage) × (o ≡ some page)
      × (evidence_quote_exists_on_page ops stripped page.content ≡ true)

  -- The text that the citation names holds the quote.
  abbrev pub Quoted : Document → Option ℕ → Type 0
  Quoted row none = InContent (text_content ops row.content)
  Quoted row (some n) = InPage (page_with citation.cited_document_id n library.stored_pages)

  -- A document of the requirement's project.
  pub record Visible : Type 0 where
    pub row : Document
    pub found_row : document_with citation.cited_document_id library.documents ≡ some row
    pub same_project : (row.project_id == citation.requirement_project_id) ≡ true

  abbrev pub Ready : Document → Type 0
  Ready row =
      (str_eq row.processing_status "completed" ≡ true)
      × ((str_eq row.doc_role "knowledge_base" && not (str_eq row.approval_status "APPROVED"))
          ≡ false)
      × (is_completed_ingestion row.ingestion_status ≡ true)

  abbrev pub snippet_length : ℕ
  snippet_length = length stripped

  -- What a citation that is accepted satisfies.
  pub record Citable : Type 0 where
    pub visible : Visible
    pub ready : Ready visible.row
    pub long_enough : snippet_min_len ≤ snippet_length
    pub short_enough : snippet_length ≤ snippet_max_len
    pub quoted : Quoted visible.row citation.cited_page

  -- Why a citation is refused with status 404, 422 or 400.
  pub data Refusal : ℕ → Type 0 where
    hidden : ¬ Visible → Refusal 404
    ill_sized :
        (v : Visible)
        → Ready v.row
        → (snippet_length < snippet_min_len) ⊎ (snippet_max_len < snippet_length)
        → Refusal 422
    unready : (v : Visible) → ¬ Ready v.row → Refusal 400
    unquoted : (v : Visible) → ¬ Quoted v.row citation.cited_page → Refusal 400

  -- The result of the check says which of these holds.
  abbrev pub Judged : Checked (Text × Option ℕ) → Type 0
  Judged (granted r) = (r ≡ (stripped, citation.cited_page)) × Citable
  Judged (denied e) = Refusal e.status_code

  abbrev Found : Type 0 → Option ℕ → Checked (Text × Option ℕ) → Type 0
  Found Holds p (granted r) = (r ≡ (stripped, p)) × Holds
  Found Holds p (denied e) = (e.status_code ≡ 400) × ¬ Holds

  empty_has_none : ¬ InContent (some [])
  empty_has_none (content, e, q) =
      let (a, b, c) = (evidence_quote_exists_on_page_iff ops stripped content).0 q in
      ground (arith, e, b)

  on_content-Found : (o : Option Text) → Found (InContent o) none (on_content ops stripped o)
  unfolding on_content
  on_content-Found none = (refl, λ (content, e, q). absurd (ground (arith, e)))
  on_content-Found (some []) = (refl, empty_has_none)
  on_content-Found (some (c ∷ cs)) =
      if_both (λ (r : Checked (Text × Option ℕ)). Found (InContent (some (c ∷ cs))) none r)
        (evidence_quote_exists_on_page ops stripped (c ∷ cs)) _ _ (λ e. (refl, (c ∷ cs, refl, e)))
        (λ e. (refl, λ (content, e', q). ground (arith, e, e', q)))

  on_cited_page-Found :
      (n : ℕ) (o : Option DocumentPage) → Found (InPage o) (some n) (on_cited_page ops stripped n o)
  unfolding on_cited_page
  on_cited_page-Found n none = (refl, λ (page, e, q). absurd (ground (arith, e)))
  on_cited_page-Found n (some page) =
      if_both (λ (r : Checked (Text × Option ℕ)). Found (InPage (some page)) (some n) r)
        (evidence_quote_exists_on_page ops stripped page.content) _ _ (λ e. (refl, (page, refl, e)))
        (λ e. (refl, λ (other, e', q). ground (arith, e, e', q)))

  find_snippet-Found :
      (row : Document) (p : Option ℕ)
      → Found (Quoted row p) p (find_snippet ops library row citation.cited_document_id stripped p)
  unfolding find_snippet
  find_snippet-Found row none = on_content-Found (text_content ops row.content)
  find_snippet-Found row (some n) =
      on_cited_page-Found n (page_with citation.cited_document_id n library.stored_pages)

  module _ (v : Visible) (ready : Ready v.row) where
    Found-Judged :
        (snippet_min_len ≤ snippet_length)
        → (snippet_length ≤ snippet_max_len)
        → (r : Checked (Text × Option ℕ))
        → Found (Quoted v.row citation.cited_page) citation.cited_page r
        → Judged r
    Found-Judged long short (granted r) (e, q) = (
      e,
      record { visible = v; ready = ready; long_enough = long; short_enough = short; quoted = q },
    )
    Found-Judged long short (denied e) (code, missing) =
        subst (λ (n : ℕ). Refusal n) (sym code) (unquoted v missing)

    bounded_snippet-Judged : Judged (bounded_snippet ops library citation v.row stripped)
    unfolding bounded_snippet
    bounded_snippet-Judged =
        if_both Judged (ltb snippet_length snippet_min_len) _ _
          (λ e. ill_sized v ready (inl (ground (arith, e))))
          (λ e.
            if_both Judged (ltb snippet_max_len snippet_length) _ _
              (λ e'. ill_sized v ready (inr (ground (arith, e'))))
              (λ e'.
                Found-Judged (ground (arith, e)) (ground (arith, e')) _
                  (find_snippet-Found v.row citation.cited_page)))

  ready_or_refused : (v : Visible) → Judged (admitted ops library citation (some v.row))
  unfolding admitted
  ready_or_refused v =
      if_both Judged (not (v.row.project_id == citation.requirement_project_id)) _ _
        (λ e. absurd (ground (arith, e, v.same_project)))
        (λ _.
          if_both Judged (not (str_eq v.row.processing_status "completed")) _ _
            (λ e. unready v (λ (a, b, c). ground (arith, e, a)))
            (λ e.
              if_both Judged
                (str_eq v.row.doc_role "knowledge_base"
                  && not (str_eq v.row.approval_status "APPROVED"))
                _ _ (λ e'. unready v (λ (a, b, c). ground (arith, e', b)))
                (λ e'.
                  if_both Judged (not (is_completed_ingestion v.row.ingestion_status)) _ _
                    (λ d. unready v (λ (a, b, c). ground (arith, d, c)))
                    (λ d. bounded_snippet-Judged v (ground (arith, e), e', ground (arith, d))))))

  foreign_hidden :
      (row : Document)
      → document_with citation.cited_document_id library.documents ≡ some row
      → (row.project_id == citation.requirement_project_id) ≡ false
      → ¬ Visible
  foreign_hidden row e foreign v =
      let same_row : row ≡ v.row = some-injective _ _ (sym e ∙ v.found_row) in
      ground (arith, foreign, v.same_project, ap (λ (d : Document). d.project_id) same_row)

  admitted-Judged :
      (o : Option Document)
      → document_with citation.cited_document_id library.documents ≡ o
      → Judged (admitted ops library citation o)
  unfolding admitted
  admitted-Judged none e = hidden (λ v. ground (arith, e, v.found_row))
  admitted-Judged (some row) e =
      elim (Bool-cases (row.project_id == citation.requirement_project_id)) [
        | inl own ↦ ready_or_refused (record { row = row; found_row = e; same_project = own })
        | inr foreign ↦ rw foreign (hidden (foreign_hidden row e foreign))
      ]

  -- Every answer to a citation is justified: an accepted one returns the client's own snippet, stripped,
  -- and the cited page, not the text of the stored page; and the citation is of a finished and approved document of the project whose cited text
  -- holds the quote; 404 means that the project has no such document, 422 that the snippet is too
  -- short or too long, and 400 that the document is not ready or its text lacks the quote.
  pub validate_evidence_candidate-Judged : Judged (validate_evidence_candidate ops library citation)
  unfolding validate_evidence_candidate
  validate_evidence_candidate-Judged = admitted-Judged _ refl

  same_row : (v w : Visible) → v.row ≡ w.row
  same_row v w = some-injective _ _ (sym v.found_row ∙ w.found_row)

  Refusal-not_citable : (n : ℕ) → Refusal n → ¬ Citable
  Refusal-not_citable _ (hidden none_visible) c = none_visible c.visible
  Refusal-not_citable _ (ill_sized v ready sizes) c =
      ground (arith, sizes, c.long_enough, c.short_enough)
  Refusal-not_citable _ (unready v not_ready) c =
      not_ready (subst (λ (row : Document). Ready row) (same_row c.visible v) c.ready)
  Refusal-not_citable _ (unquoted v missing) c =
      missing
        (subst (λ (row : Document). Quoted row citation.cited_page) (same_row c.visible v) c.quoted)

  accepted_if :
      (r : Checked (Text × Option ℕ))
      → Judged r
      → Citable
      → r ≡ granted (stripped, citation.cited_page)
  accepted_if (granted r) (e, citable) c = ap granted e
  accepted_if (denied e) refusal c = absurd (Refusal-not_citable e.status_code refusal c)

  -- A citation that satisfies every condition is granted, and the result is the client's own snippet,
  -- stripped, and the cited page.
  pub Citable-accepted :
      Citable
      → validate_evidence_candidate ops library citation ≡ granted (stripped, citation.cited_page)
  Citable-accepted c = accepted_if _ validate_evidence_candidate-Judged c
