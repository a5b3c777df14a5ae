-- ===== src/Review/Once.antt =====
-- Why a candidate is promoted at most once, whatever reviews are submitted.
use mathlib.Core.Path.{subst}
use rfp.Database.{Outcome, raised, returned}
use rfp.Extraction.Store.{Rows, Store, first_with}
use rfp.Extraction.World.{Requirement, RequirementCandidate}
use rfp.Ingestion.Routes.{same}
use rfp.Prelude.{
  List, [], arith, false, if◌then◌else◌, inl, inr, is_some, refl, suc, sym, true, ℕ, ◌&&◌, ◌==◌,
  ◌∷◌, ◌≡◌, ◌≤◌,
}
use rfp.Review.{review_requirement_candidate}
use rfp.Review.Checks.{Decision, ReviewCall, ReviewResult, approve, edit, reject}
use rfp.Review.Decided.{review_requirement_candidate-Ending}
use rfp.Review.Outcomes.{Ending}
use rfp.Review.Settled.{
  CandidatesFor-SettledKept, CandidatesFor-ids, IsDistinct, SettledKept, SettledKept-refl,
  SettledKept-trans, first_with-only, ids_of, same_candidates-SettledKept,
}
use rfp.Review.Write.{Wording, added, is_source, promoted, requirement_of}

-- How many requirements name the candidate as their source.
unfoldable pub promotions : ℕ → List Requirement → ℕ
promotions n [] = 0
promotions n (r ∷ rs) = let rest = promotions n rs in if is_source n r then suc rest else rest

pub record IsUnique (rs : List Requirement) : Type 0 where
  pub at_most_once : (n : ℕ) → promotions n rs ≤ 1

promotions-none :
    (n : ℕ) (rs : List Requirement)
    → is_some (first_with (is_source n) rs) ≡ false
    → promotions n rs ≡ 0
unfolding promotions first_with
promotions-none n [] e = refl
promotions-none n (r ∷ rs) e = ground (arith, e, promotions-none n rs)

module _ (call : ReviewCall) (c : RequirementCandidate) (words : Wording)
    (rs : List Requirement) where
  one_more : promotions c.id rs ≡ 0 → IsUnique rs → IsUnique (requirement_of call c words ∷ rs)
  unfolding promotions requirement_of is_source
  one_more e h = record { at_most_once = λ n. counted n (h.at_most_once n) }
    where
      none_before : (n : ℕ) → (c.id == n) ≡ true → promotions n rs ≡ 0
      none_before n same = subst (λ k. promotions k rs ≡ 0) (ground (arith, same)) e

      counted : (n : ℕ) → promotions n rs ≤ 1 → promotions n (requirement_of call c words ∷ rs) ≤ 1
      counted n le = ground (arith, none_before n, le)

  IsUnique-added :
      (d : Decision)
      → is_some (promoted call d c words) && is_some (first_with (is_source c.id) rs) ≡ false
      → IsUnique rs
      → IsUnique (added (promoted call d c words) rs)
  unfolding promoted
  IsUnique-added approve e h = one_more (promotions-none c.id rs e) h
  IsUnique-added edit e h = one_more (promotions-none c.id rs e) h
  IsUnique-added reject e h = h

-- A session with nothing pending in which no candidate has two requirements and no two candidates have
-- the same identifier.
pub record IsConsistent (store : Store) : Type 0 where
  pub fresh : store.committed ≡ store.working
  pub unique : IsUnique store.working.requirements
  pub distinct : IsDistinct (ids_of store.working.candidates)

-- What reviews keep.
pub record Keeps (before after : Store) : Type 0 where
  pub consistent : IsConsistent after
  pub settled_kept : SettledKept before.working.candidates after.working.candidates

Ending-Keeps :
    (call : ReviewCall) (before : Store) (r : Outcome ReviewResult × Store)
    → Ending call before r
    → IsConsistent before
    → Keeps before r.1
Ending-Keeps call before (returned r, after) (inl d) h =
    let olds = before.working.candidates in
    let c = d.by.candidate in
    record {
      consistent = record {
        fresh = sym d.settled;
        unique =
            subst (λ (rows : Rows). IsUnique rows.requirements) (sym d.settled)
              (subst IsUnique (sym d.requirements) (
                IsUnique-added call c d.words before.working.requirements d.by.decision
                  d.first_promotion h.unique));
        distinct =
            subst (λ (rows : Rows). IsDistinct (ids_of rows.candidates)) (sym d.settled)
              (subst IsDistinct
                (sym (
                  CandidatesFor-ids call d.by.decision d.by.reviewer d.comment c d.was_proposed olds
                    after.committed.candidates d.candidates_for))
                h.distinct);
      };
      settled_kept =
          subst (λ (rows : Rows). SettledKept olds rows.candidates) (sym d.settled)
            (CandidatesFor-SettledKept call d.by.decision d.by.reviewer d.comment c d.was_proposed
              olds after.committed.candidates
              (first_with-only _ olds c h.distinct d.by.found_candidate) d.candidates_for);
    }
Ending-Keeps call before (returned r, after) (inr p) h = record {
  consistent = record {
    fresh = p.kept.at_rest;
    unique = subst IsUnique (sym p.kept.in_working.same_requirements) h.unique;
    distinct =
        subst (λ (cs : List RequirementCandidate). IsDistinct (ids_of cs))
          (sym p.kept.in_working.same_candidates) h.distinct;
  };
  settled_kept = same_candidates-SettledKept _ _ p.kept.in_working.same_candidates;
}
Ending-Keeps call before (raised e, after) k h = record {
  consistent = record {
    fresh = k.at_rest;
    unique = subst IsUnique (sym k.in_working.same_requirements) h.unique;
    distinct =
        subst (λ (cs : List RequirementCandidate). IsDistinct (ids_of cs))
          (sym k.in_working.same_candidates) h.distinct;
  };
  settled_kept = same_candidates-SettledKept _ _ k.in_working.same_candidates;
}

-- Reviews that follow one another, each in a transaction of its own.
unfoldable pub reviews : List ReviewCall → Store → Store
reviews [] store = store
reviews (call ∷ rest) store = reviews rest (review_requirement_candidate call store).1

-- Whatever reviews are submitted one after another, replayed, conflicting or refused, a candidate that is
-- not PROPOSED is never changed again, and no candidate ever becomes the source of two requirements,
-- if none was at the start, no two candidates have the same identifier, and nothing is pending.
pub reviews-Keeps :
    (calls : List ReviewCall) (store : Store)
    → IsConsistent store
    → Keeps store (reviews calls store)
unfolding reviews
reviews-Keeps [] store h = record {
  consistent = h;
  settled_kept = SettledKept-refl store.working.candidates;
}
reviews-Keeps (call ∷ rest) store h =
    let first_review =
      Ending-Keeps call store _ (review_requirement_candidate-Ending call store h.fresh) h in
    let later =
      reviews-Keeps rest (review_requirement_candidate call store).1 first_review.consistent in
    record {
      consistent = later.consistent;
      settled_kept =
          SettledKept-trans store.working.candidates
            (review_requirement_candidate call store).1.working.candidates _
            first_review.settled_kept later.settled_kept;
    }
