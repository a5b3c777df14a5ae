-- ===== src/Promotion/World.antt =====
-- `_perform_staged_copy` of app/services/clean_storage_promotion.py, over what the file system
-- answers: a file is the list of its bytes, and its `st_size` is their number.
use mathlib.Core.Path.{subst}
use rfp.Database.{Outcome, promotion_error, raised, returned}
use rfp.Prelude.{
  Bool, List, Option, String, [], ap, arith, eq_iff, if_both, if◌then◌else◌, length, none, not,
  refl, some, str_eq, sym, true, ℕ, ◌&&◌, ◌++◌, ◌+◌, ◌==◌, ◌∷◌, ◌≡◌,
}
use rfp.Scan.World.{read_all}

pub data Destination : Type 0 where
  absent : Destination
  symlink : Destination
  stored : List ℕ → Destination

-- A quarantined file that `os.open` gave, and what reading it to its end and writing it yields.
pub record Source : Type 0 where
  pub is_regular : Bool
  pub st_size : ℕ
  pub chunks : Outcome (List (List ℕ))

-- `written n chunk` is what the n-th `os.write` puts into the file: it may be cut short, and the number that
-- it returns is ignored.
pub record CopyEnv : Type 0 where
  pub sha256 : List ℕ → String
  pub lower : String → String
  pub is_contained : Bool
  pub destination : Destination
  pub open_source : Option Source
  pub opens_partial : Bool
  pub written : ℕ → List ℕ → List ℕ
  pub syncs : Bool
  pub replaces : Bool

abbrev pub refused {ℓ} : {A : Type ℓ} → String → Outcome A
refused code = raised (promotion_error code)

unfoldable pub digest_is : CopyEnv → List ℕ → String → Bool
digest_is env bytes expected_digest =
    str_eq (env.lower (env.sha256 bytes)) (env.lower expected_digest)

-- The bytes of the destination after the n-th write and the later ones.
unfoldable pub written_all : CopyEnv → ℕ → List (List ℕ) → List ℕ
written_all env n [] = []
written_all env n ([] ∷ rest) = []
written_all env n ((b ∷ bs) ∷ rest) = env.written n (b ∷ bs) ++ written_all env (n + 1) rest

-- Size and digest are those of the bytes that were read.
checked_copy : CopyEnv → String → ℕ → Outcome (List (List ℕ)) → Outcome (List ℕ)
checked_copy env expected_digest expected_size (raised e) = raised e
checked_copy env expected_digest expected_size (returned chunks) =
    let bytes = read_all chunks in
    if not (length bytes == expected_size)
    then refused "PROMOTION_DIGEST_MISMATCH"
    else if not (digest_is env bytes expected_digest)
    then refused "PROMOTION_DIGEST_MISMATCH"
    else if not env.syncs
    then refused "PROMOTION_FSYNC_FAILED"
    else if not env.replaces
    then refused "PROMOTION_COPY_FAILED"
    else returned (written_all env 0 chunks)

copy_from : CopyEnv → String → ℕ → Option Source → Outcome (List ℕ)
unfolding checked_copy
copy_from env expected_digest expected_size none = refused "PROMOTION_SOURCE_MISSING"
copy_from env expected_digest expected_size (some source) =
    if not source.is_regular
    then refused "PROMOTION_SOURCE_INVALID"
    else if not (source.st_size == expected_size)
    then refused "PROMOTION_DIGEST_MISMATCH"
    else if not env.opens_partial
    then refused "PROMOTION_COPY_FAILED"
    else checked_copy env expected_digest expected_size source.chunks

copy_to : CopyEnv → String → ℕ → Destination → Outcome (List ℕ)
unfolding copy_from
copy_to env expected_digest expected_size absent =
    copy_from env expected_digest expected_size env.open_source
copy_to env expected_digest expected_size symlink = refused "PROMOTION_DESTINATION_CONFLICT"
copy_to env expected_digest expected_size (stored bytes) =
    if (length bytes == expected_size) && digest_is env bytes expected_digest
    then returned bytes
    else refused "PROMOTION_DESTINATION_CONFLICT"

-- The bytes of the finished file in clean storage.
unfoldable pub perform_staged_copy : CopyEnv → String → ℕ → Outcome (List ℕ)
unfolding copy_to
perform_staged_copy env expected_digest expected_size =
    if not env.is_contained
    then refused "PROMOTION_SOURCE_INVALID"
    else copy_to env expected_digest expected_size env.destination

-- What a file in clean storage must be.
pub record IsCopy (env : CopyEnv) (expected_digest : String) (expected_size : ℕ) (bytes : List ℕ)
    : Type 0 where
  pub same_size : length bytes ≡ expected_size
  pub same_bytes : env.lower (env.sha256 bytes) ≡ env.lower expected_digest

-- No write is cut short.
abbrev pub WritesWhole : CopyEnv → Type 0
WritesWhole env = (n : ℕ) (chunk : List ℕ) → env.written n chunk ≡ chunk

written_all-whole :
    (env : CopyEnv) (n : ℕ) (chunks : List (List ℕ))
    → WritesWhole env
    → written_all env n chunks ≡ read_all chunks
unfolding written_all read_all
written_all-whole env n [] w = refl
written_all-whole env n ([] ∷ rest) w = refl
written_all-whole env n ((b ∷ bs) ∷ rest) w =
    rw (w n (b ∷ bs)) (ap (λ (t : List ℕ). (b ∷ bs) ++ t) (written_all-whole env (n + 1) rest w))

module _ (env : CopyEnv) (expected_digest : String) (expected_size : ℕ)
    (whole : WritesWhole env) where
  -- A way to end that returns only such a file.
  abbrev Copies : Outcome (List ℕ) → Type 0
  Copies (returned bytes) = IsCopy env expected_digest expected_size bytes
  Copies (raised e) = Unit

  digest_is-true :
      (bytes : List ℕ)
      → digest_is env bytes expected_digest ≡ true
      → env.lower (env.sha256 bytes) ≡ env.lower expected_digest
  unfolding digest_is
  digest_is-true bytes e = (eq_iff _ _).0 e

  checked_copy-Copies :
      (o : Outcome (List (List ℕ))) → Copies (checked_copy env expected_digest expected_size o)
  unfolding checked_copy
  checked_copy-Copies (raised e) = tt
  checked_copy-Copies (returned chunks) =
      let bytes = read_all chunks in
      if_both Copies (not (length bytes == expected_size)) _ _ (λ _. tt)
        (λ size.
          if_both Copies (not (digest_is env bytes expected_digest)) _ _ (λ _. tt)
            (λ digest.
              if_both Copies (not env.syncs) _ _ (λ _. tt)
                (λ _.
                  if_both Copies (not env.replaces) _ _ (λ _. tt)
                    (λ _.
                      subst (IsCopy env expected_digest expected_size)
                        (sym (written_all-whole env 0 chunks whole))
                        (record {
                          same_size = ground (arith, size);
                          same_bytes = digest_is-true bytes (ground (arith, digest));
                        })))))

  copy_from-Copies : (o : Option Source) → Copies (copy_from env expected_digest expected_size o)
  unfolding copy_from
  copy_from-Copies none = tt
  copy_from-Copies (some source) =
      if_both Copies (not source.is_regular) _ _ (λ _. tt)
        (λ _.
          if_both Copies (not (source.st_size == expected_size)) _ _ (λ _. tt)
            (λ _.
              if_both Copies (not env.opens_partial) _ _ (λ _. tt)
                (λ _. checked_copy-Copies source.chunks)))

  copy_to-Copies : (d : Destination) → Copies (copy_to env expected_digest expected_size d)
  unfolding copy_to
  copy_to-Copies absent = copy_from-Copies env.open_source
  copy_to-Copies symlink = tt
  copy_to-Copies (stored bytes) =
      if_both Copies ((length bytes == expected_size) && digest_is env bytes expected_digest) _ _
        (λ e. record {
          same_size = ground (arith, e);
          same_bytes = digest_is-true bytes (ground (arith, e));
        })
        (λ _. tt)

  all_Copies : Copies (perform_staged_copy env expected_digest expected_size)
  unfolding perform_staged_copy
  all_Copies =
      if_both Copies (not env.is_contained) _ _ (λ _. tt) (λ _. copy_to-Copies env.destination)

  -- If no write is cut short, then whatever else the file system answers, a staged copy that returns
  -- has left the expected file in clean storage: its size and its digest are those that were recorded
  -- for the quarantined one, also when the file had been there before.
  pub perform_staged_copy-IsCopy :
      (bytes : List ℕ)
      → perform_staged_copy env expected_digest expected_size ≡ returned bytes
      → IsCopy env expected_digest expected_size bytes
  perform_staged_copy-IsCopy bytes e = subst Copies e all_Copies
