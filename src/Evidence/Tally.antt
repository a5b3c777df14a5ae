-- ===== src/Evidence/Tally.antt =====
-- The counts of validate_draft_grounding in app/services/evidence_validation.py.
use mathlib.Core.Path.{subst}
use rfp.Evidence.{EvidenceOps}
use rfp.Evidence.Grounding.{
  GroundingResult, Score, UnsupportedClaim, check_claim_support, extract_draft_claims, grounding_of,
  is_nil, tally, validate_draft_grounding,
}
use rfp.Prelude.{
  All, List, Text, [], arith, if_both, length, refl, suc, sym, take, true, zero, ℕ, ◌+◌, ◌↔◌, ◌∷◌,
  ◌≡◌, ◌≤◌,
}

module _ (ops : EvidenceOps) (threshold : Score) (snippets : List Text) where
  abbrev pub Supported : Text → Type 0
  Supported claim = (check_claim_support ops threshold snippets claim).is_supported ≡ true

  -- The two parts of a tally are those of `claims`.
  record Tallied (claims : List Text) (parts : List UnsupportedClaim × ℕ) : Type 0 where
    sums_up : parts.1 + length parts.0 ≡ length claims
    decides : (is_nil parts.0 ≡ true) ↔ All Supported claims

  tally-Tallied : (claims : List Text) → Tallied claims (tally ops threshold snippets claims)
  unfolding tally
  tally-Tallied [] = record { sums_up = refl; decides = (λ e. tt, λ e. refl) }
  tally-Tallied (claim ∷ claims) =
      let rest = tally-Tallied claims in
      if_both (Tallied (claim ∷ claims))
        (check_claim_support ops threshold snippets claim).is_supported _ _
        (λ e. record {
          sums_up = omega (arith, rest.sums_up);
          decides = (λ h. (e, rest.decides.0 h), λ h. rest.decides.1 h.1);
        })
        (λ e. record {
          sums_up = omega (arith, rest.sums_up);
          decides = (λ h. absurd (ground (arith, h)), λ h. absurd (ground (arith, e, h.0)));
        })

  -- The counts of the result add up, and it passes exactly if all claims are supported.
  pub record Accounted (claims : List Text) (r : GroundingResult) : Type 0 where
    pub bounded : r.total_claims ≤ 50
    pub all_counted : r.total_claims ≡ length claims
    pub added_up : r.supported_count + length r.unsupported_claims ≡ r.total_claims
    pub verdict : (r.passes ≡ true) ↔ All Supported claims

  length-take_le : (n : ℕ) (xs : List Text) → length (take n xs) ≤ n
  length-take_le zero xs = omega arith
  length-take_le (suc n) [] = omega arith
  length-take_le (suc n) (x ∷ xs) = omega (arith, length-take_le n xs)

  extract-bounded : (draft_text : Text) → length (extract_draft_claims ops draft_text) ≤ 50
  unfolding extract_draft_claims
  extract-bounded draft_text = length-take_le 50 _

  none_claimed : (claims : List Text) → is_nil claims ≡ true → claims ≡ []
  none_claimed [] e = refl
  none_claimed (c ∷ cs) e = absurd (ground (arith, e))

  Accounted-empty :
      (r : GroundingResult) (claims : List Text) → claims ≡ [] → Accounted [] r → Accounted claims r
  Accounted-empty r claims e h = subst (λ (cs : List Text). Accounted cs r) (sym e) h

  -- The grounding check examines the claims that extract_draft_claims gives, which are at most 50; it
  -- counts each of these as supported or lists it as unsupported, and it passes exactly if each of
  -- these is supported. Claims of the draft beyond them are not looked at.
  pub validate_draft_grounding-Accounted :
      (draft_text : Text)
      → Accounted
          (extract_draft_claims ops draft_text)
          (validate_draft_grounding ops threshold draft_text snippets)
  unfolding validate_draft_grounding grounding_of
  validate_draft_grounding-Accounted draft_text =
      let claims = extract_draft_claims ops draft_text in
      let parts = tally-Tallied claims in
      if_both (Accounted claims) (is_nil claims) _ _
        (λ e. Accounted-empty _ claims (none_claimed claims e) (record {
          bounded = omega arith;
          all_counted = refl;
          added_up = refl;
          verdict = (λ h. tt, λ h. refl);
        }))
        (λ e. record {
          bounded = extract-bounded draft_text;
          all_counted = refl;
          added_up = parts.sums_up;
          verdict = parts.decides;
        })
