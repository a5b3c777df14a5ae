-- ===== src/Extraction/Account.antt =====
-- How the extraction loop accounts for the proposals that it was given.
use rfp.Database.{DocumentPage}
use rfp.Extraction.{
  Build, CandidateUnit, RunScope, accept, build, build_step, candidate_of, skip, task_of,
}
use rfp.Extraction.Sound.{Round, build_step-Round, kept, skipped}
use rfp.Prelude.{List, String, [], ap, arith, length, map, or_else, ℕ, ◌+◌, ◌∷◌, ◌≡◌}
use rfp.Prelude.Dict.{Dict, insert, lookup}

-- The sum of the issue counters.
unfoldable pub total : Dict ℕ → ℕ
total [] = 0
total ((code, n) ∷ rest) = n + total rest

total-insert :
    (code : String) (d : Dict ℕ)
    → total (insert code (or_else (lookup code d) 0 + 1) d) ≡ total d + 1
unfolding total insert lookup
total-insert code [] = omega arith
total-insert code ((c, n) ∷ rest) = ground (arith, total-insert code rest)

module _ (scope : RunScope) (pages : List DocumentPage) where
  abbrev accounted : Build → ℕ
  accounted b = length b.candidate_rows + total b.issue_counts

  Round-accounted :
      (unit : CandidateUnit) (b r : Build)
      → Round scope pages unit b r
      → accounted r ≡ accounted b + 1
  unfolding skip accept
  Round-accounted unit b _ (skipped code seen) = omega (arith, total-insert code b.issue_counts)
  Round-accounted unit b _ (kept page quote req_text seen sound) = omega arith

  -- No proposal is lost or counted twice: the loop keeps or skips each unit of the response once,
  -- so the candidates kept and the issue counters grow together by the number of units.
  pub build-accounted :
      (units : List CandidateUnit) (b : Build)
      → length (build scope pages units b).candidate_rows
          + total (build scope pages units b).issue_counts
        ≡ length units + (length b.candidate_rows + total b.issue_counts)
  unfolding build
  build-accounted [] b = omega arith
  build-accounted (unit ∷ rest) b = omega (
    arith,
    build-accounted rest (build_step scope pages unit b),
    Round-accounted unit b _ (build_step-Round scope pages unit b),
  )

  -- Each candidate has its review task: the tasks name, in order, the candidates that stand beside
  -- them.
  abbrev pub Paired : Build → Type 0
  Paired b = map (λ t. t.candidate_id) b.task_rows ≡ map (λ c. c.id) b.candidate_rows

  Round-Paired :
      (unit : CandidateUnit) (b r : Build) → Round scope pages unit b r → Paired b → Paired r
  unfolding skip accept candidate_of task_of
  Round-Paired unit b _ (skipped code seen) h = h
  Round-Paired unit b _ (kept page quote req_text seen sound) h =
      ap (λ l. scope.fresh_id (length b.candidate_rows) ∷ l) h

  -- The loop keeps candidates and review tasks paired: a review task is made for each candidate
  -- that is kept and for nothing else.
  pub build-Paired :
      (units : List CandidateUnit) (b : Build) → Paired b → Paired (build scope pages units b)
  unfolding build
  build-Paired [] b h = h
  build-Paired (unit ∷ rest) b h =
      build-Paired rest (build_step scope pages unit b)
        (Round-Paired unit b _ (build_step-Round scope pages unit b) h)
