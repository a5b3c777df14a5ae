-- ===== src/Extraction/Sound.antt =====
-- Why every candidate that an extraction run keeps is sound: it quotes a page of its document
-- exactly and passed every check.
use rfp.Database.{DocumentPage}
use rfp.Extraction.{
  Build, CandidateUnit, RunScope, Span, accept, build, build_step, candidate_of, content_checked,
  dedup_key, deduplicated, evidence_checked, first_of, max_evidence_text_len,
  max_requirement_text_len, on_page, page_by_seq, seen_before, skip, text_checked, unless_rejected,
}
use rfp.Extraction.Plain.{
  IsPlainText, find_unsafe_content-IsPlainText, has_word, strip-has_word, strip_present-has_word,
}
use rfp.Extraction.World.{RequirementCandidate, find_unsafe_content, is_empty, proposed, strip}
use rfp.Prelude.{
  All, List, Option, String, Text, [], arith, false, if_both, leb, length, ltb, none, or_else, refl,
  slice, some, true, ℕ, ◌||◌, ◌∷◌, ◌≡◌,
}

-- What a kept candidate promises about the pages it was built from.
pub record IsSound (scope : RunScope) (pages : List DocumentPage) (c : RequirementCandidate)
    : Type 0 where
  pub page : DocumentPage
  pub sequence : ℕ
  pub found_page : page_by_seq pages sequence ≡ some page
  pub page_id : c.document_page_id ≡ page.id
  pub page_hash : c.page_content_sha256 ≡ or_else page.content_sha256 ""
  pub addressable : ltb (length page.content) c.span_end || leb c.span_end c.span_start ≡ false
  pub quoted : c.evidence_text ≡ slice page.content c.span_start c.span_end
  pub hashed : c.evidence_sha256 ≡ scope.ops.sha256 c.evidence_text
  pub evidence_present : is_empty (strip scope.ops c.evidence_text) ≡ false
  pub evidence_bounded : ltb max_evidence_text_len (length c.evidence_text) ≡ false
  pub text_bounded :
      is_empty c.normalized_requirement_text
        || ltb max_requirement_text_len (length c.normalized_requirement_text)
      ≡ false
  pub evidence_word : has_word scope.ops c.evidence_text ≡ true
  pub text_word : has_word scope.ops c.normalized_requirement_text ≡ true
  pub text_plain : IsPlainText c.normalized_requirement_text
  pub evidence_plain : IsPlainText c.evidence_text
  pub is_proposed : c.candidate_status ≡ proposed
  pub of_run : c.extraction_run_id ≡ scope.run_id
  pub of_document : c.document_id ≡ scope.document_id
  pub of_organization : c.organization_id ≡ scope.organization_id
  pub of_project : c.project_id ≡ scope.project_id

first_of-none : (a b : Option String) → first_of a b ≡ none → (a ≡ none) × (b ≡ none)
first_of-none none b e = (refl, e)
first_of-none (some a) b e = ground arith

abbrev pub remember : List Span → Build → Build
remember seen b = record b { seen_spans = seen }

-- How one round of the loop ends: it counts one skip, or it keeps one sound candidate.
pub data Round (scope : RunScope) (pages : List DocumentPage) (unit : CandidateUnit) (b : Build)
    : Build → Type 0 where
  skipped :
      (code : String) (seen : List Span) → Round scope pages unit b (skip code (remember seen b))
  kept :
      (page : DocumentPage) (evidence req_text : Text) (seen : List Span)
      → IsSound scope pages (
          candidate_of scope page unit evidence req_text (scope.fresh_id (length b.candidate_rows)))
      → Round scope pages unit b (accept scope page unit evidence req_text (remember seen b))

module _ (scope : RunScope) (pages : List DocumentPage) (unit : CandidateUnit) (page : DocumentPage)
    (at : page_by_seq pages unit.source_unit_sequence ≡ some page) (b : Build)
    (span : (ltb (length page.content) unit.span_end || leb unit.span_end unit.span_start)
      ≡ false) where
  abbrev evidence : Text
  evidence = slice page.content unit.span_start unit.span_end

  by_policy :
      (req_text : Text) (seen : List Span) (code : Option String)
      → (code ≡ none
          → IsSound scope pages (
              candidate_of scope page unit evidence req_text
                (scope.fresh_id (length b.candidate_rows))))
      → Round scope pages unit b (
          unless_rejected code
            (remember seen b)
            (accept scope page unit evidence req_text (remember seen b)))
  by_policy req_text seen none f = kept page evidence req_text seen (f refl)
  by_policy req_text seen (some code) f = skipped code seen

  module _ (present : is_empty (strip scope.ops evidence) ≡ false)
      (bounded : ltb max_evidence_text_len (length evidence) ≡ false) where
    sound_if :
        (req_text : Text) (n : ℕ)
        → (is_empty req_text || ltb max_requirement_text_len (length req_text)) ≡ false
        → has_word scope.ops req_text ≡ true
        → first_of (find_unsafe_content req_text) (find_unsafe_content evidence) ≡ none
        → IsSound scope pages (candidate_of scope page unit evidence req_text n)
    unfolding candidate_of
    sound_if req_text n e worded clean_text =
        let plain_texts =
          first_of-none (find_unsafe_content req_text) (find_unsafe_content evidence) clean_text in
        record {
          page = page;
          sequence = unit.source_unit_sequence;
          found_page = at;
          page_id = refl;
          page_hash = refl;
          addressable = span;
          quoted = refl;
          hashed = refl;
          evidence_present = present;
          evidence_bounded = bounded;
          text_bounded = e;
          evidence_word = strip_present-has_word scope.ops evidence present;
          text_word = worded;
          text_plain = find_unsafe_content-IsPlainText req_text plain_texts.0;
          evidence_plain = find_unsafe_content-IsPlainText evidence plain_texts.1;
          is_proposed = refl;
          of_run = refl;
          of_document = refl;
          of_organization = refl;
          of_project = refl;
        }

    deduplicated-Round :
        (req_text : Text)
        → (is_empty req_text || ltb max_requirement_text_len (length req_text)) ≡ false
        → has_word scope.ops req_text ≡ true
        → Round scope pages unit b (deduplicated scope page unit evidence req_text b)
    unfolding deduplicated content_checked
    deduplicated-Round req_text e worded =
        let seen : List Span = dedup_key unit req_text ∷ b.seen_spans in
        let code : Option String =
          first_of (find_unsafe_content req_text) (find_unsafe_content evidence) in
        if_both (λ (r : Build). Round scope pages unit b r)
          (seen_before b.seen_spans (dedup_key unit req_text)) (skip "SKIP_DUPLICATE_CANDIDATE" b)
          (unless_rejected code (remember seen b)
            (accept scope page unit evidence req_text (remember seen b)))
          (λ _. skipped "SKIP_DUPLICATE_CANDIDATE" b.seen_spans)
          (λ _. by_policy req_text seen code (sound_if req_text _ e worded))

    text_checked-Round : Round scope pages unit b (text_checked scope page unit evidence b)
    unfolding text_checked
    text_checked-Round =
        let req_text = strip scope.ops unit.requirement_text in
        if_both (λ (r : Build). Round scope pages unit b r)
          (is_empty req_text || ltb max_requirement_text_len (length req_text)) _ _
          (λ _. skipped "SKIP_REQUIREMENT_TEXT_BOUNDS" b.seen_spans)
          (λ e.
            deduplicated-Round req_text e
              (strip-has_word scope.ops unit.requirement_text (ground (arith, e))))

  evidence_checked-Round : Round scope pages unit b (evidence_checked scope page unit evidence b)
  unfolding evidence_checked
  evidence_checked-Round =
      if_both (λ (r : Build). Round scope pages unit b r) (is_empty (strip scope.ops evidence)) _ _
        (λ _. skipped "SKIP_EMPTY_EVIDENCE" b.seen_spans)
        (λ present.
          if_both (λ (r : Build). Round scope pages unit b r)
            (ltb max_evidence_text_len (length evidence)) _ _
            (λ _. skipped "SKIP_EVIDENCE_TOO_LONG" b.seen_spans)
            (λ bounded. text_checked-Round present bounded))

module _ (scope : RunScope) (pages : List DocumentPage) where
  on_page-Round :
      (unit : CandidateUnit) (o : Option DocumentPage) (b : Build)
      → page_by_seq pages unit.source_unit_sequence ≡ o
      → Round scope pages unit b (on_page scope unit o b)
  unfolding on_page
  on_page-Round unit none b e = skipped "SKIP_UNKNOWN_SOURCE_UNIT" b.seen_spans
  on_page-Round unit (some page) b e =
      if_both (λ (r : Build). Round scope pages unit b r)
        (ltb (length page.content) unit.span_end || leb unit.span_end unit.span_start) _ _
        (λ _. skipped "SKIP_INVALID_SPAN" b.seen_spans)
        (λ span. evidence_checked-Round scope pages unit page e b span)

  pub build_step-Round :
      (unit : CandidateUnit) (b : Build) → Round scope pages unit b (build_step scope pages unit b)
  unfolding build_step
  build_step-Round unit b = on_page-Round unit (page_by_seq pages unit.source_unit_sequence) b refl

  abbrev pub AllSound : Build → Type 0
  AllSound b = All (IsSound scope pages) b.candidate_rows

  Round-AllSound :
      (unit : CandidateUnit) (b r : Build) → Round scope pages unit b r → AllSound b → AllSound r
  unfolding skip accept
  Round-AllSound unit b _ (skipped code seen) h = h
  Round-AllSound unit b _ (kept page quote req_text seen sound) h = (sound, h)

  -- Every candidate that the loop keeps is sound, whatever the extractor proposes: it names a page
  -- that the document has, its evidence is the exact slice of that page's content at its span and
  -- lies inside it, the evidence digest is that of the evidence, both texts have a
  -- character that is not a space, are within their bounds and have no control characters but tabs and
  -- line ends, and it is PROPOSED in this run.
  pub build-AllSound :
      (units : List CandidateUnit) (b : Build) → AllSound b → AllSound (build scope pages units b)
  unfolding build
  build-AllSound [] b h = h
  build-AllSound (unit ∷ rest) b h =
      build-AllSound rest (build_step scope pages unit b)
        (Round-AllSound unit b _ (build_step-Round unit b) h)
