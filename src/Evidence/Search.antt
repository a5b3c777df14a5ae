-- ===== src/Evidence/Search.antt =====
-- The substring search of app/services/evidence_validation.py, against the texts before and after.
-- `haystack` is `needle` between two texts.
use rfp.Evidence.{
  EvidenceOps, collapse, contains, evidence_quote_exists_on_page, normalize_evidence_text,
  starts_with,
}
use rfp.Extraction.World.{is_empty}
use rfp.Prelude.{
  Bool, Bool-cases, Text, [], ap, arith, false, inl, inr, refl, true, ℕ, ◌++◌, ◌↔◌, ◌∷◌, ◌≡◌,
}

pub Occurs : Text → Text → Type 0
Occurs needle haystack = (before : Text) × (after : Text) × (haystack ≡ before ++ (needle ++ after))

starts_with_iff :
    (needle haystack : Text)
    → (starts_with needle haystack ≡ true) ↔ ((after : Text) × (haystack ≡ needle ++ after))
unfolding starts_with
starts_with_iff [] haystack = (λ e. (haystack, refl), λ e. refl)
starts_with_iff (c ∷ cs) [] =
    (λ e. absurd (ground (arith, e)), λ (after, e). absurd (ground (arith, e)))
starts_with_iff (c ∷ cs) (d ∷ ds) = (
  λ e.
      let (after, e') = (starts_with_iff cs ds).0 (ground (arith, e)) in
      (after, ground (arith, e, e')),
  λ (after, e). ground (arith, e, (starts_with_iff cs ds).1 (after, ground (arith, e))),
)

Occurs-later : (c : ℕ) (needle cs : Text) → Occurs needle cs → Occurs needle (c ∷ cs)
unfolding Occurs
Occurs-later c needle cs (before, after, e) = (c ∷ before, after, ap (λ (t : Text). c ∷ t) e)

contains_sound : (needle haystack : Text) → contains needle haystack ≡ true → Occurs needle haystack
unfolding contains Occurs
contains_sound [] [] e = ([], [], refl)
contains_sound (n ∷ ns) [] e = absurd (ground (arith, e))
contains_sound needle (c ∷ cs) e = elim (Bool-cases (starts_with needle (c ∷ cs))) [
  | inl hit ↦ let (after, e') = (starts_with_iff needle (c ∷ cs)).0 hit in ([], after, e')
  | inr missing ↦ Occurs-later c needle cs (contains_sound needle cs (ground (arith, e, missing)))
]

contains_complete :
    (needle haystack before after : Text)
    → haystack ≡ before ++ (needle ++ after)
    → contains needle haystack ≡ true
unfolding contains
contains_complete [] [] before after e = refl
contains_complete (n ∷ ns) [] [] after e = absurd (ground (arith, e))
contains_complete (n ∷ ns) [] (b ∷ before) after e = absurd (ground (arith, e))
contains_complete needle (c ∷ cs) [] after e =
    ground (arith, (starts_with_iff needle (c ∷ cs)).1 (after, e))
contains_complete needle (c ∷ cs) (b ∷ before) after e =
    ground (arith, contains_complete needle cs before after (ground (arith, e)))

pub contains_iff :
    (needle haystack : Text) → (contains needle haystack ≡ true) ↔ Occurs needle haystack
unfolding Occurs
contains_iff needle haystack = (
  contains_sound needle haystack,
  λ (before, after, e). contains_complete needle haystack before after e,
)

-- A quote is on a page exactly if neither is empty and the normalized quote stands, as one piece,
-- somewhere in the normalized page.
pub evidence_quote_exists_on_page_iff :
    (ops : EvidenceOps) (snippet page_content : Text)
    → (evidence_quote_exists_on_page ops snippet page_content ≡ true) ↔ (
        (is_empty snippet ≡ false)
        × (is_empty page_content ≡ false)
        × Occurs (normalize_evidence_text ops snippet) (normalize_evidence_text ops page_content))
unfolding evidence_quote_exists_on_page
evidence_quote_exists_on_page_iff ops [] page_content =
    (λ e. absurd (ground (arith, e)), λ (a, b, c). absurd (ground (arith, a)))
evidence_quote_exists_on_page_iff ops (c ∷ cs) [] =
    (λ e. absurd (ground (arith, e)), λ (a, b, c). absurd (ground (arith, b)))
evidence_quote_exists_on_page_iff ops (c ∷ cs) (d ∷ ds) =
    (λ e. (refl, refl, (contains_iff _ _).0 e), λ (a, b, o). (contains_iff _ _).1 o)

again :
    (is_space : ℕ → Bool)
    → is_space 0x20 ≡ true
    → (chars : Text) (after_space : Bool)
    → collapse is_space after_space (collapse is_space after_space chars)
      ≡ collapse is_space after_space chars
unfolding collapse
again is_space blank [] after_space = refl
again is_space blank (c ∷ cs) true = elim (Bool-cases (is_space c)) [
  | inr other ↦ ground (arith, other, again is_space blank cs false)
  | inl space ↦ ground (arith, space, again is_space blank cs true)
]
again is_space blank (c ∷ cs) false = elim (Bool-cases (is_space c)) [
  | inr other ↦ ground (arith, other, again is_space blank cs false)
  | inl space ↦ ground (arith, space, blank, again is_space blank cs true)
]

-- Collapsing the white space of a text a second time changes nothing, provided that a blank is
-- white space.
pub collapse_idempotent :
    (is_space : ℕ → Bool) (chars : Text)
    → is_space 0x20 ≡ true
    → collapse is_space false (collapse is_space false chars) ≡ collapse is_space false chars
collapse_idempotent is_space chars blank = again is_space blank chars false
