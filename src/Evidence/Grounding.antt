-- ===== src/Evidence/Grounding.antt =====
-- app/services/evidence_validation.py, second half: which sentences of a draft answer are supported by
-- the evidence. A score is the pair of the sizes whose quotient the code computes; such quotients
-- are compared by cross multiplication.
use mathlib.Core.List.{reverse}
use rfp.Evidence.{EvidenceOps, contains, normalize_evidence_text}
use rfp.Extraction.World.{strip}
use rfp.Prelude.{
  Bool, List, Option, String, Text, [], false, if◌then◌else◌, leb, length, ltb, member, none, not,
  some, take, true, ℕ, ◌&&◌, ◌*◌, ◌+◌, ◌==◌, ◌||◌, ◌∷◌,
}

pub record Score : Type 0 where
  pub shared : ℕ
  pub combined : ℕ

unfoldable pub above : Score → Score → Bool
above s t = ltb (t.shared * s.combined) (s.shared * t.combined)

-- `[a-z0-9]`
abbrev is_token_char : ℕ → Bool
is_token_char c = (leb 0x61 c && leb c 0x7a) || (leb 0x30 c && leb c 0x39)

end_token : Text → List Text → List Text
end_token [] tokens = tokens
end_token (c ∷ cs) tokens = reverse (c ∷ cs) ∷ tokens

-- The runs of token characters; the first argument is the current run, reversed.
find_tokens : Text → Text → List Text
unfolding end_token
find_tokens run [] = end_token run []
find_tokens run (c ∷ cs) = elim (is_token_char c) [
  | true ↦ find_tokens (c ∷ run) cs
  | false ↦ end_token run (find_tokens [] cs)
]

-- `set(...)`
unfoldable pub distinct : List Text → List Text
distinct [] = []
distinct (t ∷ ts) = let rest = distinct ts in if member t rest then rest else t ∷ rest

unfoldable pub tokenize : EvidenceOps → Text → List Text
unfolding find_tokens
tokenize ops chars = distinct (find_tokens [] (normalize_evidence_text ops chars))

-- `claim_tokens & snippet_tokens` and `claim_tokens | snippet_tokens`
unfoldable pub shared_tokens : List Text → List Text → List Text
shared_tokens [] bs = []
shared_tokens (a ∷ others) bs =
    let rest = shared_tokens others bs in if member a bs then a ∷ rest else rest

unfoldable pub all_tokens : List Text → List Text → List Text
all_tokens [] bs = bs
all_tokens (a ∷ others) bs =
    let rest = all_tokens others bs in if member a bs then rest else a ∷ rest

unfoldable pub overlap : List Text → List Text → Score
overlap claim_tokens snippet_tokens = record {
  shared = length (shared_tokens claim_tokens snippet_tokens);
  combined = length (all_tokens claim_tokens snippet_tokens);
}

pub record Best : Type 0 where
  pub best_score : Score
  pub best_snippet : Option Text

abbrev pub is_nil {ℓ} : {A : Type ℓ} → List A → Bool
is_nil [] = true
is_nil (x ∷ xs) = false

-- One round of the loop over the snippets.
unfoldable pub better : EvidenceOps → List Text → Best → Text → Best
better ops claim_tokens best snippet =
    let snippet_tokens = tokenize ops snippet in
    if is_nil snippet_tokens
    then best
    else if above (overlap claim_tokens snippet_tokens) best.best_score
    then record { best_score = overlap claim_tokens snippet_tokens; best_snippet = some snippet }
    else best

unfoldable pub best_of : EvidenceOps → List Text → List Text → Best → Best
best_of ops claim_tokens [] best = best
best_of ops claim_tokens (snippet ∷ rest) best =
    best_of ops claim_tokens rest (better ops claim_tokens best snippet)

abbrev pub no_support : Best
no_support = record { best_score = record { shared = 0; combined = 1 }; best_snippet = none }

-- CLAIM_SUPPORT_THRESHOLD
abbrev pub claim_support_threshold : Score
claim_support_threshold = record { shared = 1; combined = 5 }

pub record ClaimSupport : Type 0 where
  pub is_supported : Bool
  pub overlap_score : Score
  pub supporting_snippet : Option Text

unfoldable pub support_of : Score → Best → ClaimSupport
support_of threshold best = record {
  is_supported = not (above threshold best.best_score);
  overlap_score = best.best_score;
  supporting_snippet = best.best_snippet;
}

-- An empty claim is trivially supported.
unfoldable pub check_claim_support : EvidenceOps → Score → List Text → Text → ClaimSupport
unfolding support_of
check_claim_support ops threshold evidence_snippets claim =
    if is_nil (tokenize ops claim)
    then record {
      is_supported = true;
      overlap_score = record { shared = 1; combined = 1 };
      supporting_snippet = none;
    }
    else support_of threshold (best_of ops (tokenize ops claim) evidence_snippets no_support)

-- _BOILERPLATE_PHRASES
abbrev pub boilerplate_phrases : List String
boilerplate_phrases =
    "we will comply" ∷ "our organisation will comply" ∷ "our organization will comply"
    ∷ "we are pleased to" ∷ "we confirm that" ∷ "please see attached" ∷ "as required"
    ∷ "in accordance with" ∷ "we acknowledge" ∷ "we understand" ∷ []

has_phrase : EvidenceOps → List String → Text → Bool
has_phrase ops [] norm = false
has_phrase ops (phrase ∷ phrases) norm =
    contains (ops.base.code_points phrase) norm || has_phrase ops phrases norm

-- `.!?`
abbrev is_stop : ℕ → Bool
is_stop c = (c == 0x2e) || (c == 0x21) || (c == 0x3f)

drop_stops : Text → Text
drop_stops [] = []
drop_stops (c ∷ cs) = if is_stop c then drop_stops cs else c ∷ cs

-- `raw.strip().rstrip(".!?").strip()`
unfoldable pub sentence_of : EvidenceOps → Text → Text
unfolding drop_stops
sentence_of ops raw = strip ops.base (reverse (drop_stops (reverse (strip ops.base raw))))

unfoldable pub is_claim : EvidenceOps → Text → Bool
unfolding has_phrase
is_claim ops sentence =
    leb 20 (length sentence)
    && not (has_phrase ops boilerplate_phrases (normalize_evidence_text ops sentence))

claims_of : EvidenceOps → List Text → List Text
claims_of ops [] = []
claims_of ops (raw ∷ raws) =
    let rest = claims_of ops raws in
    if is_claim ops (sentence_of ops raw) then sentence_of ops raw ∷ rest else rest

unfoldable pub extract_draft_claims : EvidenceOps → Text → List Text
unfolding claims_of
extract_draft_claims ops draft_text = take 50 (claims_of ops (ops.split_sentences draft_text))

pub record UnsupportedClaim : Type 0 where
  pub claim_sentence : Text
  pub claim_score : Score
  pub best_evidence_snippet : Option Text

pub record GroundingResult : Type 0 where
  pub passes : Bool
  pub unsupported_claims : List UnsupportedClaim
  pub supported_count : ℕ
  pub total_claims : ℕ
  pub grounding_pass_rate : Score

-- The loop over the claims: the unsupported ones, and the number of the others.
unfoldable pub tally : EvidenceOps → Score → List Text → List Text → List UnsupportedClaim × ℕ
tally ops threshold snippets [] = ([], 0)
tally ops threshold snippets (claim ∷ claims) =
    let rest = tally ops threshold snippets claims in
    let support = check_claim_support ops threshold snippets claim in
    if support.is_supported then (rest.0, rest.1 + 1) else (
      record {
        claim_sentence = claim;
        claim_score = support.overlap_score;
        best_evidence_snippet = support.supporting_snippet;
      }
          ∷ rest.0,
      rest.1,
    )

unfoldable pub grounding_of : List Text → List UnsupportedClaim × ℕ → GroundingResult
grounding_of claims (unsupported, supported) = record {
  passes = is_nil unsupported;
  unsupported_claims = unsupported;
  supported_count = supported;
  total_claims = length claims;
  grounding_pass_rate = record { shared = supported; combined = length claims };
}

unfoldable pub validate_draft_grounding : EvidenceOps → Score → Text → List Text → GroundingResult
unfolding tally grounding_of
validate_draft_grounding ops threshold draft_text snippets =
    let claims = extract_draft_claims ops draft_text in
    if is_nil claims
    then record {
      passes = true;
      unsupported_claims = [];
      supported_count = 0;
      total_claims = 0;
      grounding_pass_rate = record { shared = 1; combined = 1 };
    }
    else grounding_of claims (tally ops threshold snippets claims)
