-- ===== src/Review/Settled.antt =====
-- Why a review leaves the candidates alone that are no longer PROPOSED.
use mathlib.Core.Option.{some-injective}
use mathlib.Core.Path.{subst}
use rfp.Extraction.Store.{first_with}
use rfp.Extraction.World.{RequirementCandidate, User, proposed}
use rfp.Prelude.{
  All, Bool, List, Option, Text, [], ap, arith, if_both, inl, inr, map, refl, some, sym, ℕ, ◌∙◌,
  ◌∷◌, ◌≡◌, ◌≢◌, ◌⊎◌,
}
use rfp.Review.Checks.{Decision, ReviewCall}
use rfp.Review.Outcomes.{CandidatesFor, DecidedRow}

abbrev pub ids_of : List RequirementCandidate → List ℕ
ids_of cs = map (λ c. c.id) cs

-- The identifiers are a primary key.
abbrev pub IsDistinct : List ℕ → Type 0
IsDistinct [] = Unit
IsDistinct (n ∷ rest) = All (λ (m : ℕ). m ≢ n) rest × IsDistinct rest

-- A candidate that was not PROPOSED is the same row.
abbrev pub SettledKept : List RequirementCandidate → List RequirementCandidate → Type 0
SettledKept [] [] = Unit
SettledKept (old ∷ olds) (new ∷ news) =
    ((old.candidate_status ≡ proposed) ⊎ (new ≡ old)) × SettledKept olds news
SettledKept _ _ = ⊥

pub SettledKept-refl : (cs : List RequirementCandidate) → SettledKept cs cs
SettledKept-refl [] = tt
SettledKept-refl (c ∷ rest) = (inr refl, SettledKept-refl rest)

one_kept :
    (a b c : RequirementCandidate)
    → (a.candidate_status ≡ proposed) ⊎ (b ≡ a)
    → (b.candidate_status ≡ proposed) ⊎ (c ≡ b)
    → (a.candidate_status ≡ proposed) ⊎ (c ≡ a)
one_kept a b c (inl p) k = inl p
one_kept a b c (inr e) (inl p) =
    inl (ap (λ (x : RequirementCandidate). x.candidate_status) (sym e) ∙ p)
one_kept a b c (inr e) (inr f) = inr (f ∙ e)

pub SettledKept-trans :
    (xs ys zs : List RequirementCandidate)
    → SettledKept xs ys
    → SettledKept ys zs
    → SettledKept xs zs
SettledKept-trans [] [] [] h k = tt
SettledKept-trans (x ∷ xs) (y ∷ ys) (z ∷ zs) h k =
    (one_kept x y z h.0 k.0, SettledKept-trans xs ys zs h.1 k.1)
SettledKept-trans [] (y ∷ ys) zs h k = absurd h
SettledKept-trans (x ∷ xs) [] zs h k = absurd h
SettledKept-trans [] [] (z ∷ zs) h k = absurd k
SettledKept-trans (x ∷ xs) (y ∷ ys) [] h k = absurd k

first_with-other :
    (p : RequirementCandidate → Bool) (n : ℕ) (cs : List RequirementCandidate)
    (c : RequirementCandidate)
    → All (λ (m : ℕ). m ≢ n) (ids_of cs)
    → first_with p cs ≡ some c
    → c.id ≢ n
unfolding first_with
first_with-other p n [] c h = λ e. absurd (ground (arith, e))
first_with-other p n (x ∷ xs) c h =
    if_both (λ (o : Option RequirementCandidate). o ≡ some c → c.id ≢ n) (p x) _ _
      (λ _. λ e. λ q. h.0 (ap (λ (y : RequirementCandidate). y.id) (some-injective _ _ e) ∙ q))
      (λ _. λ e. first_with-other p n xs c h.1 e)

others :
    (n : ℕ) (c : RequirementCandidate) (cs : List RequirementCandidate)
    → c.id ≡ n
    → All (λ (m : ℕ). m ≢ n) (ids_of cs)
    → All (λ (d : RequirementCandidate). d.id ≡ c.id → d ≡ c) cs
others n c [] e h = tt
others n c (d ∷ rest) e h = ((λ q. absurd (h.0 (q ∙ e))), others n c rest e h.1)

-- The row with the identifier of the one that was found is that one.
pub first_with-only :
    (p : RequirementCandidate → Bool) (cs : List RequirementCandidate) (c : RequirementCandidate)
    → IsDistinct (ids_of cs)
    → first_with p cs ≡ some c
    → All (λ (d : RequirementCandidate). d.id ≡ c.id → d ≡ c) cs
unfolding first_with
first_with-only p [] c h = λ e. absurd (ground (arith, e))
first_with-only p (x ∷ xs) c h =
    if_both
      (λ (o : Option RequirementCandidate).
        o ≡ some c → All (λ (d : RequirementCandidate). d.id ≡ c.id → d ≡ c) (x ∷ xs))
      (p x) _ _
      (λ _. λ e.
        let same_row : x ≡ c = some-injective _ _ e in
        let same_id : c.id ≡ x.id = ap (λ (y : RequirementCandidate). y.id) (sym same_row) in
        ((λ _. same_row), others x.id c xs same_id h.0))
      (λ _. λ e.
        ((λ q. absurd (first_with-other p x.id xs c h.0 e (sym q))), first_with-only p xs c h.1 e))

module _ (call : ReviewCall) (d : Decision) (reviewer : User) (comment : Option Text)
    (c : RequirementCandidate) (was_proposed : c.candidate_status ≡ proposed) where
  one_settled :
      (old new : RequirementCandidate)
      → (old.id ≡ c.id → old ≡ c)
      → ((old.id ≡ c.id) × DecidedRow call d reviewer comment old new)
        ⊎ ((old.id ≢ c.id) × (new ≡ old))
      → (old.candidate_status ≡ proposed) ⊎ (new ≡ old)
  one_settled old new only (inl (e, row)) =
      inl (ap (λ (x : RequirementCandidate). x.candidate_status) (only e) ∙ was_proposed)
  one_settled old new only (inr (n, e)) = inr e

  pub CandidatesFor-SettledKept :
      (olds news : List RequirementCandidate)
      → All (λ (x : RequirementCandidate). x.id ≡ c.id → x ≡ c) olds
      → CandidatesFor call d reviewer comment c.id olds news
      → SettledKept olds news
  CandidatesFor-SettledKept [] [] only h = tt
  CandidatesFor-SettledKept (old ∷ olds) (new ∷ news) only h =
      (one_settled old new only.0 h.0, CandidatesFor-SettledKept olds news only.1 h.1)
  CandidatesFor-SettledKept [] (new ∷ news) only h = absurd h
  CandidatesFor-SettledKept (old ∷ olds) [] only h = absurd h

  one_id :
      (old new : RequirementCandidate)
      → ((old.id ≡ c.id) × DecidedRow call d reviewer comment old new)
        ⊎ ((old.id ≢ c.id) × (new ≡ old))
      → new.id ≡ old.id
  one_id old new (inl (e, row)) = row.same_id
  one_id old new (inr (n, e)) = ap (λ (x : RequirementCandidate). x.id) e

  pub CandidatesFor-ids :
      (olds news : List RequirementCandidate)
      → CandidatesFor call d reviewer comment c.id olds news
      → ids_of news ≡ ids_of olds
  CandidatesFor-ids [] [] h = refl
  CandidatesFor-ids (old ∷ olds) (new ∷ news) h =
      ap (λ (n : ℕ). n ∷ ids_of news) (one_id old new h.0)
      ∙ ap (λ (l : List ℕ). old.id ∷ l) (CandidatesFor-ids olds news h.1)
  CandidatesFor-ids [] (new ∷ news) h = absurd h
  CandidatesFor-ids (old ∷ olds) [] h = absurd h

-- Candidates as they were.
pub same_candidates-SettledKept : (xs ys : List RequirementCandidate) → ys ≡ xs → SettledKept xs ys
same_candidates-SettledKept xs ys e = subst (SettledKept xs) (sym e) (SettledKept-refl xs)
