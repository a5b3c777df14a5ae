-- ===== src/Evidence/Examples.antt =====
-- Tests of app/services/evidence_validation.py, and its theorems at concrete inputs.
use rfp.Database.{Document, DocumentPage, completed}
use rfp.Evidence.{
  Citation, EvidenceOps, Library, collapse, contains, denied, document_with,
  evidence_quote_exists_on_page, granted, normalize_evidence_text, page_with, starts_with,
  validate_evidence_candidate,
}
use rfp.Evidence.Citable.{Citable-accepted, Judged, validate_evidence_candidate-Judged}
use rfp.Evidence.Grounding.{
  above, all_tokens, best_of, better, check_claim_support, claim_support_threshold, distinct,
  extract_draft_claims, grounding_of, is_claim, overlap, sentence_of, shared_tokens, support_of,
  tally, tokenize, validate_draft_grounding,
}
use rfp.Evidence.Search.{Occurs, collapse_idempotent, evidence_quote_exists_on_page_iff}
use rfp.Evidence.Support.{Reaches, check_claim_support_iff}
use rfp.Evidence.Tally.{Accounted, validate_draft_grounding-Accounted}
use rfp.Extraction.World.{TextOps, is_empty, strip}
use rfp.Prelude.{
  Any, Text, [], arith, false, member, none, refl, same_text, some, true, ℕ, ◌==◌, ◌↔◌, ◌∷◌, ◌≡◌,
}
use rfp.Samples.{with_status}

abbrev plain : TextOps
plain = record {
  is_space = λ c. c == 0x20;
  nfc = λ chars. chars;
  sha256 = λ chars. "h";
  show_id = λ n. n ∷ [];
  show_number = λ n. n ∷ [];
  code_points = λ s. 0x7e ∷ [];
}

abbrev plain_ops : EvidenceOps
plain_ops = record {
  base = plain;
  casefold = λ chars. chars;
  split_sentences = λ chars. chars ∷ [];
}

-- "abc defghijk lmn opq", and the same with another space in it.
abbrev quote : Text
quote =
    0x61 ∷ 0x62 ∷ 0x63 ∷ 0x20 ∷ 0x64 ∷ 0x65 ∷ 0x66 ∷ 0x67 ∷ 0x68 ∷ 0x69 ∷ 0x6a ∷ 0x6b ∷ 0x20 ∷ 0x6c
    ∷ 0x6d ∷ 0x6e ∷ 0x20 ∷ 0x6f ∷ 0x70 ∷ 0x71 ∷ []

abbrev spaced_page : DocumentPage
spaced_page = record {
  id = 50;
  document_id = 1;
  page_number = 4;
  content = 0x7a ∷ 0x20 ∷ 0x20 ∷ quote;
  unit_kind = none;
  source_locator = none;
  content_sha256 = none;
}

abbrev finished : Document
finished = record (with_status completed) { processing_status = "completed" }

abbrev sample_library : Library
sample_library = record { documents = finished ∷ []; stored_pages = spaced_page ∷ [] }

abbrev cite : ℕ → Citation
cite project = record {
  requirement_project_id = project;
  cited_document_id = 1;
  cited_page = some 4;
  client_snippet = 0x20 ∷ quote;
}

-- The page is cited with a quote on it; to another project the document does not exist.
cites :
    (validate_evidence_candidate plain_ops sample_library (cite 2) ≡ granted (quote, some 4))
    × (validate_evidence_candidate plain_ops sample_library (cite 3)
        ≡ denied (record { status_code = 404; detail = "Document not found" }))
unfolding validate_evidence_candidate document_with strip page_with evidence_quote_exists_on_page
    contains normalize_evidence_text collapse starts_with
cites = (refl, refl)

evidence_quote_exists_on_page_iff_example :
    (evidence_quote_exists_on_page plain_ops quote (0x7a ∷ 0x20 ∷ 0x20 ∷ quote) ≡ true) ↔ (
      (is_empty quote ≡ false)
      × (is_empty (0x7a ∷ 0x20 ∷ 0x20 ∷ quote) ≡ false)
      × Occurs
          (normalize_evidence_text plain_ops quote)
          (normalize_evidence_text plain_ops (0x7a ∷ 0x20 ∷ 0x20 ∷ quote)))
evidence_quote_exists_on_page_iff_example =
    evidence_quote_exists_on_page_iff plain_ops quote (0x7a ∷ 0x20 ∷ 0x20 ∷ quote)

validate_evidence_candidate-Judged_example :
    Judged plain_ops sample_library
      (cite 3)
      (validate_evidence_candidate plain_ops sample_library (cite 3))
validate_evidence_candidate-Judged_example =
    validate_evidence_candidate-Judged plain_ops sample_library (cite 3)

Citable-accepted_example :
    validate_evidence_candidate plain_ops sample_library (cite 2) ≡ granted (quote, some 4)
unfolding document_with strip page_with evidence_quote_exists_on_page contains
    normalize_evidence_text collapse starts_with
Citable-accepted_example = Citable-accepted plain_ops sample_library (cite 2) (record {
  visible = record { row = finished; found_row = refl; same_project = refl };
  ready = (refl, refl, refl);
  long_enough = omega arith;
  short_enough = omega arith;
  quoted = (spaced_page, refl, refl);
})

-- One of the five words is in both.
supports :
    (check_claim_support plain_ops claim_support_threshold
      ((0x7a ∷ 0x20 ∷ 0x61 ∷ 0x62 ∷ 0x63 ∷ []) ∷ [])
      quote).overlap_score
    ≡ record { shared = 1; combined = 5 }
unfolding check_claim_support tokenize distinct normalize_evidence_text strip collapse member
    same_text best_of better above overlap all_tokens shared_tokens
supports = refl

check_claim_support_iff_example :
    ((check_claim_support plain_ops claim_support_threshold (quote ∷ []) quote).is_supported ≡ true)
    ↔ Any (Reaches plain_ops (tokenize plain_ops quote) claim_support_threshold) (quote ∷ [])
unfolding tokenize distinct normalize_evidence_text strip collapse member same_text
check_claim_support_iff_example =
    check_claim_support_iff plain_ops claim_support_threshold (quote ∷ []) quote (omega arith) refl

validate_draft_grounding-Accounted_example :
    Accounted plain_ops claim_support_threshold
      (quote ∷ [])
      (extract_draft_claims plain_ops quote)
      (validate_draft_grounding plain_ops claim_support_threshold quote (quote ∷ []))
validate_draft_grounding-Accounted_example =
    validate_draft_grounding-Accounted plain_ops claim_support_threshold (quote ∷ []) quote

-- A claim of twenty characters that a snippet repeats.
grounds : validate_draft_grounding plain_ops claim_support_threshold quote (quote ∷ []) ≡ record {
  passes = true;
  unsupported_claims = [];
  supported_count = 1;
  total_claims = 1;
  grounding_pass_rate = record { shared = 1; combined = 1 };
}
unfolding validate_draft_grounding extract_draft_claims is_claim sentence_of strip contains
    normalize_evidence_text collapse starts_with check_claim_support tokenize distinct member
    same_text above best_of better all_tokens overlap shared_tokens support_of tally grounding_of
grounds = refl

collapse_idempotent_example :
    collapse plain.is_space false (collapse plain.is_space false (0x20 ∷ 0x20 ∷ quote))
    ≡ collapse plain.is_space false (0x20 ∷ 0x20 ∷ quote)
collapse_idempotent_example = collapse_idempotent plain.is_space (0x20 ∷ 0x20 ∷ quote) refl
