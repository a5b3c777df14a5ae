-- ===== src/Evidence/Support.antt =====
-- The support check of app/services/evidence_validation.py against a search for one good snippet.
use mathlib.Core.Path.{subst}
use native.Mathlib.Nat.{le_of_mul-le-mul_right, mul-le-mul_right}
use rfp.Evidence.{EvidenceOps}
use rfp.Evidence.Grounding.{
  Best, Score, above, all_tokens, best_of, better, check_claim_support, is_nil, no_support, overlap,
  support_of, tokenize,
}
use rfp.Prelude.{
  Any, List, Text, [], arith, false, if_both, inl, inr, length, member, refl, true, ◌*◌, ◌<◌, ◌↔◌,
  ◌∷◌, ◌≡◌, ◌≤◌, ◌⊎◌,
}

abbrev AtMost : Score → Score → Type 0
AtMost s t = s.shared * t.combined ≤ t.shared * s.combined

above-AtMost : (s t : Score) → (above s t ≡ false) ↔ AtMost s t
unfolding above
above-AtMost s t = (λ e. ground (arith, e), λ h. ground (arith, h))

AtMost-trans : (s t u : Score) → 0 < t.combined → AtMost s t → AtMost t u → AtMost s u
AtMost-trans s t u pos st tu =
    le_of_mul-le-mul_right {k = t.combined}
      (omega (arith, mul-le-mul_right u.combined st, mul-le-mul_right s.combined tu)) pos

above_reverses : (s t : Score) → above s t ≡ true → AtMost t s
unfolding above
above_reverses s t e = ground (arith, e)

all_tokens_nonempty :
    (claim_tokens bs : List Text) → is_nil bs ≡ false → 0 < length (all_tokens claim_tokens bs)
unfolding all_tokens
all_tokens_nonempty [] [] e = absurd (ground (arith, e))
all_tokens_nonempty [] (b ∷ bs) e = omega arith
all_tokens_nonempty (a ∷ rest) bs e =
    if_both (λ (r : List Text). 0 < length r) (member a bs) _ _ (λ _. all_tokens_nonempty rest bs e)
      (λ _. omega arith)

module _ (ops : EvidenceOps) (claim_tokens : List Text) where
  -- The score of a snippet that has tokens.
  abbrev pub score_of : Text → Score
  score_of snippet = overlap claim_tokens (tokenize ops snippet)

  abbrev pub Scored : Text → Type 0
  Scored snippet = is_nil (tokenize ops snippet) ≡ false

  score_positive : (snippet : Text) → Scored snippet → 0 < (score_of snippet).combined
  unfolding overlap
  score_positive snippet e = all_tokens_nonempty claim_tokens (tokenize ops snippet) e

  -- What a round keeps: the score that stood, and that of the snippet, are at most the new one, which
  -- is one of the two.
  record Round (best : Best) (snippet : Text) (after : Best) : Type 0 where
    positive : 0 < best.best_score.combined → 0 < after.best_score.combined
    keeps : AtMost best.best_score after.best_score
    covers : Scored snippet → AtMost (score_of snippet) after.best_score
    origin :
        (after.best_score ≡ best.best_score)
        ⊎ (Scored snippet × (after.best_score ≡ score_of snippet))

  better-Round :
      (best : Best) (snippet : Text) → Round best snippet (better ops claim_tokens best snippet)
  unfolding better
  better-Round best snippet =
      if_both (Round best snippet) (is_nil (tokenize ops snippet)) _ _
        (λ e. record {
          positive = λ p. p;
          keeps = omega arith;
          covers = λ scored. absurd (ground (arith, e, scored));
          origin = inl refl;
        })
        (λ scored.
          if_both (Round best snippet) (above (score_of snippet) best.best_score) _ _
            (λ e. record {
              positive = λ p. score_positive snippet scored;
              keeps = above_reverses (score_of snippet) best.best_score e;
              covers = λ _. omega arith;
              origin = inr (scored, refl);
            })
            (λ e. record {
              positive = λ p. p;
              keeps = omega arith;
              covers = λ _. (above-AtMost (score_of snippet) best.best_score).0 e;
              origin = inl refl;
            }))

  abbrev pub Reaches : Score → Text → Type 0
  Reaches low snippet = Scored snippet × (above low (score_of snippet) ≡ false)

  carried :
      (low : Score) (s : Text) (rest : List Text) (best after : Best)
      → 0 < best.best_score.combined
      → Round best s after
      → AtMost low best.best_score ⊎ Any (Reaches low) (s ∷ rest)
      → AtMost low after.best_score ⊎ Any (Reaches low) rest
  carried low s rest best after pos round (inl h) =
      inl (AtMost-trans low best.best_score after.best_score pos h round.keeps)
  carried low s rest best after pos round (inr (inl (scored, e))) = inl (
      AtMost-trans low (score_of s) after.best_score (score_positive s scored)
        ((above-AtMost low (score_of s)).0 e) (round.covers scored))
  carried low s rest best after pos round (inr (inr later)) = inr later

  traced :
      (low : Score) (s : Text) (rest : List Text) (best after : Best)
      → Round best s after
      → AtMost low after.best_score ⊎ Any (Reaches low) rest
      → AtMost low best.best_score ⊎ Any (Reaches low) (s ∷ rest)
  traced low s rest best after round (inr later) = inr (inr later)
  traced low s rest best after round (inl h) = elim round.origin [
    | inl e ↦ inl (subst (AtMost low) e h)
    | inr (scored, e) ↦
        inr (inl (scored, (above-AtMost low (score_of s)).1 (subst (AtMost low) e h)))
  ]

  -- What was reached by the start or by a snippet is reached by the result.
  best_of-Reaches :
      (low : Score) (snippets : List Text) (best : Best)
      → 0 < best.best_score.combined
      → AtMost low best.best_score ⊎ Any (Reaches low) snippets
      → AtMost low (best_of ops claim_tokens snippets best).best_score
  unfolding best_of
  best_of-Reaches low [] best pos (inl h) = h
  best_of-Reaches low [] best pos (inr none_left) = absurd none_left
  best_of-Reaches low (s ∷ rest) best pos reached =
      let round = better-Round best s in
      best_of-Reaches low rest (better ops claim_tokens best s) (round.positive pos)
        (carried low s rest best _ pos round reached)

  -- The result is the start's or that of a snippet.
  best_of_origin :
      (low : Score) (snippets : List Text) (best : Best)
      → AtMost low (best_of ops claim_tokens snippets best).best_score
      → AtMost low best.best_score ⊎ Any (Reaches low) snippets
  unfolding best_of
  best_of_origin low [] best h = inl h
  best_of_origin low (s ∷ rest) best h =
      traced low s rest best _ (better-Round best s)
        (best_of_origin low rest (better ops claim_tokens best s) h)

not_start : (threshold : Score) → 0 < threshold.shared → ¬ AtMost threshold no_support.best_score
not_start threshold pos h = ground (arith, pos, h)

from_snippet :
    (ops : EvidenceOps) (claim_tokens : List Text) (threshold : Score) (snippets : List Text)
    → 0 < threshold.shared
    → AtMost threshold no_support.best_score ⊎ Any (Reaches ops claim_tokens threshold) snippets
    → Any (Reaches ops claim_tokens threshold) snippets
from_snippet ops claim_tokens threshold snippets pos (inl h) = absurd (not_start threshold pos h)
from_snippet ops claim_tokens threshold snippets pos (inr some_snippet) = some_snippet

supported_iff :
    (ops : EvidenceOps) (threshold : Score) (claim_tokens snippets : List Text)
    → 0 < threshold.shared
    → ((support_of threshold (best_of ops claim_tokens snippets no_support)).is_supported ≡ true)
      ↔ Any (Reaches ops claim_tokens threshold) snippets
unfolding support_of
supported_iff ops threshold claim_tokens snippets pos =
    let best = best_of ops claim_tokens snippets no_support in
    (
      λ e. from_snippet ops claim_tokens threshold snippets pos (
          best_of_origin ops claim_tokens threshold snippets no_support
            ((above-AtMost threshold best.best_score).0 (ground (arith, e)))),
      λ found_one.
          let h = (above-AtMost threshold best.best_score).1 (
            best_of-Reaches ops claim_tokens threshold snippets no_support (omega arith)
              (inr found_one)) in
          ground (arith, h),
    )

-- A claim with tokens is supported exactly if one of the snippets has tokens and reaches the
-- threshold by itself; the threshold is above zero.
pub check_claim_support_iff :
    (ops : EvidenceOps) (threshold : Score) (snippets : List Text) (claim : Text)
    → 0 < threshold.shared
    → is_nil (tokenize ops claim) ≡ false
    → ((check_claim_support ops threshold snippets claim).is_supported ≡ true)
      ↔ Any (Reaches ops (tokenize ops claim) threshold) snippets
unfolding check_claim_support support_of
check_claim_support_iff ops threshold snippets claim pos e =
    rw e (supported_iff ops threshold (tokenize ops claim) snippets pos)
