-- ===== src/Extraction/Persist/Stale.antt =====
-- What superseding the stale proposals of a document leaves behind.
use mathlib.Core.Path.{subst}
use rfp.Extraction.{RunScope}
use rfp.Extraction.Persist.{
  is_open_task_of, is_stale, supersede_stale_candidates, supersede_these, superseded_candidate,
  superseded_task,
}
use rfp.Extraction.Store.{Store, rows_with, update_with}
use rfp.Extraction.World.{
  CandidateReviewTask, RequirementCandidate, approved, edited, rejected, task_open,
}
use rfp.Prelude.{
  Bool, List, [], ap, arith, false, if_both, inl, inr, refl, sym, true, ℕ, ◌∷◌, ◌≡◌, ◌⊎◌,
}

module _ {ℓ} {A : Type ℓ} (p : A → Bool) (f : A → A) where
  update_with-none : (xs : List A) → rows_with p xs ≡ [] → update_with p f xs ≡ xs
  unfolding rows_with update_with
  update_with-none [] e = refl
  update_with-none (x ∷ xs) e = ground (arith, update_with-none xs)

  rows_with-update_all :
      ((x : A) → p x ≡ true → p (f x) ≡ false)
      → (xs : List A) → rows_with p (update_with p f xs) ≡ []
  unfolding rows_with update_with
  rows_with-update_all g [] = refl
  rows_with-update_all g (x ∷ xs) = ground (arith, g x, rows_with-update_all g xs)

  rows_with-update_other :
      (q : A → Bool)
      → ((x : A) → p x ≡ true → (q x ≡ false) × (q (f x) ≡ false))
      → (xs : List A) → rows_with q (update_with p f xs) ≡ rows_with q xs
  unfolding rows_with update_with
  rows_with-update_other q g [] = refl
  rows_with-update_other q g (x ∷ xs) = ground (arith, g x, rows_with-update_other q g xs)

-- A human has decided about the candidate.
abbrev pub is_decided : RequirementCandidate → Bool
is_decided c = elim c.candidate_status [
  | approved ↦ true
  | edited ↦ true
  | rejected ↦ true
  | _ ↦ false
]

module _ (scope : RunScope) where
  no_longer_stale :
      (c : RequirementCandidate)
      → is_stale scope c ≡ true
      → is_stale scope (superseded_candidate c) ≡ false
  unfolding is_stale
  no_longer_stale c e = ground arith

  never_decided :
      (c : RequirementCandidate)
      → is_stale scope c ≡ true
      → (is_decided c ≡ false) × (is_decided (superseded_candidate c) ≡ false)
  unfolding is_stale
  never_decided c e = ground arith

  these_candidates :
      (now : ℕ) (stale : List RequirementCandidate) (store : Store)
      → rows_with (is_stale scope) store.working.candidates ≡ stale
      → (supersede_these scope now stale store).1.working.candidates
        ≡ update_with (is_stale scope) superseded_candidate store.working.candidates
  unfolding supersede_these
  these_candidates now [] store e =
      sym (update_with-none (is_stale scope) superseded_candidate store.working.candidates e)
  these_candidates now (c ∷ cs) store e = refl

  pub supersede-candidates :
      (now : ℕ) (store : Store)
      → (supersede_stale_candidates scope now store).1.working.candidates
        ≡ update_with (is_stale scope) superseded_candidate store.working.candidates
  unfolding supersede_stale_candidates
  supersede-candidates now store = these_candidates now _ store refl

  -- Each review task is kept, or it was open and is superseded.
  abbrev pub TasksKept : ℕ → List CandidateReviewTask → List CandidateReviewTask → Type 0
  TasksKept now [] [] = Unit
  TasksKept now (old ∷ olds) (new ∷ news) =
      ((new ≡ old) ⊎ ((old.status ≡ task_open) × (new ≡ superseded_task now old)))
      × TasksKept now olds news
  TasksKept now _ _ = ⊥

  TasksKept-refl : (now : ℕ) (tasks : List CandidateReviewTask) → TasksKept now tasks tasks
  TasksKept-refl now [] = tt
  TasksKept-refl now (task ∷ rest) = (inl refl, TasksKept-refl now rest)

  open_task :
      (ids : List ℕ) (task : CandidateReviewTask)
      → is_open_task_of scope ids task ≡ true
      → task.status ≡ task_open
  unfolding is_open_task_of
  open_task ids task e = ground (arith, e)

  TasksKept-update :
      (now : ℕ) (ids : List ℕ) (tasks : List CandidateReviewTask)
      → TasksKept now tasks (update_with (is_open_task_of scope ids) (superseded_task now) tasks)
  unfolding update_with
  TasksKept-update now ids [] = tt
  TasksKept-update now ids (task ∷ rest) = (
    if_both
        (λ (new : CandidateReviewTask).
          (new ≡ task) ⊎ ((task.status ≡ task_open) × (new ≡ superseded_task now task)))
        (is_open_task_of scope ids task) _ _ (λ e. inr (open_task ids task e, refl))
        (λ _. inl refl),
    TasksKept-update now ids rest,
  )

  these_tasks :
      (now : ℕ) (stale : List RequirementCandidate) (store : Store)
      → TasksKept now store.working.review_tasks
          (supersede_these scope now stale store).1.working.review_tasks
  unfolding supersede_these
  these_tasks now [] store = TasksKept-refl now store.working.review_tasks
  these_tasks now (c ∷ cs) store = TasksKept-update now _ store.working.review_tasks

  pub supersede-TasksKept :
      (now : ℕ) (store : Store)
      → TasksKept now store.working.review_tasks
          (supersede_stale_candidates scope now store).1.working.review_tasks
  unfolding supersede_stale_candidates
  supersede-TasksKept now store = these_tasks now _ store

  -- A second call finds nothing left to supersede and changes nothing.
  pub supersede_idempotent :
      (now later : ℕ) (store : Store)
      → supersede_stale_candidates scope later (supersede_stale_candidates scope now store).1
        ≡ (0, (supersede_stale_candidates scope now store).1)
  unfolding supersede_stale_candidates supersede_these
  supersede_idempotent now later store =
      let once = (supersede_stale_candidates scope now store).1 in
      let nothing : rows_with (is_stale scope) once.working.candidates ≡ [] =
        subst (λ (cs : List RequirementCandidate). rows_with (is_stale scope) cs ≡ [])
          (sym (supersede-candidates now store))
          (rows_with-update_all (is_stale scope) superseded_candidate no_longer_stale
            store.working.candidates) in
      ap (λ (stale : List RequirementCandidate). supersede_these scope later stale once) nothing

  -- A machine run never rewrites a human decision: the candidates that were approved, edited or
  -- rejected are the same rows afterwards, in the same order.
  pub supersede-is_decided :
      (now : ℕ) (store : Store)
      → rows_with is_decided (supersede_stale_candidates scope now store).1.working.candidates
        ≡ rows_with is_decided store.working.candidates
  supersede-is_decided now store =
      subst
        (λ (cs : List RequirementCandidate).
          rows_with is_decided cs ≡ rows_with is_decided store.working.candidates)
        (sym (supersede-candidates now store))
        (rows_with-update_other (is_stale scope) superseded_candidate is_decided never_decided
          store.working.candidates)
