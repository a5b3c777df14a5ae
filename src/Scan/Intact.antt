-- ===== src/Scan/Intact.antt =====
-- When the scan of app/services/malware_scan.py takes a quarantined file for the uploaded one, and a
-- signature database for a fresh one.
use mathlib.Core.Path.{subst}
use rfp.Database.{Document}
use rfp.Prelude.{
  Bool, List, Option, String, ap, arith, eq_iff, eq_refl, false, if_both, ltb, none, or_else, refl,
  some, sym, true, ℕ, ◌&&◌, ◌+◌, ◌-◌, ◌∙◌, ◌≡◌, ◌≤◌,
}
use rfp.Scan.World.{
  Resolved, ScanEnv, VersionInfo, at_path, digest_of, is_signature_stale, os_error, read_all,
  read_digest, same_digest, storage_error, verified_at, verified_path,
}

-- The file stands at the path with the digest that was recorded at upload.
pub record IsIntact (env : ScanEnv) (doc : Document) (path : ℕ) : Type 0 where
  pub resolved : env.resolve doc.file_path ≡ at_path path
  pub present : env.is_file path ≡ true
  pub chunks : List (List ℕ)
  pub opened : env.open_file path ≡ some chunks
  pub recorded : doc.sha256_digest ≡ some (env.sha256 (read_all chunks))

pub record IsFresh (env : ScanEnv) (info : VersionInfo) : Type 0 where
  pub stamp : ℕ
  pub stamped : info.signature_timestamp ≡ some stamp
  pub recent : env.checked_at ≤ stamp + env.max_signature_age_seconds

same_digest-true :
    (a b : Option String) → same_digest a b ≡ true → (s : String) × (a ≡ some s) × (b ≡ some s)
unfolding same_digest
same_digest-true none b e = absurd (ground (arith, e))
same_digest-true (some r) none e = absurd (ground (arith, e))
same_digest-true (some r) (some c) e = (r, refl, ap some ((eq_iff c r).0 e))

digest_of-some :
    (env : ScanEnv) (o : Option (List (List ℕ))) (s : String)
    → digest_of env o ≡ some s
    → (chunks : List (List ℕ)) × (o ≡ some chunks) × (s ≡ env.sha256 (read_all chunks))
unfolding digest_of
digest_of-some env none s e = absurd (ground (arith, e))
digest_of-some env (some chunks) s e = (chunks, refl, ap (λ o. or_else o s) (sym e))

module _ (env : ScanEnv) (doc : Document) where
  checked_file :
      (path : ℕ)
      → env.resolve doc.file_path ≡ at_path path
      → env.is_file path && same_digest doc.sha256_digest (read_digest env path) ≡ true
      → IsIntact env doc path
  checked_file path r e =
      let (s, recorded, current) =
        same_digest-true doc.sha256_digest (read_digest env path) (ground (arith, e)) in
      let (chunks, opened, hashed) = digest_of-some env (env.open_file path) s current in
      record {
        resolved = r;
        present = ground (arith, e);
        chunks = chunks;
        opened = opened;
        recorded = recorded ∙ ap some hashed;
      }

  verified_at-some :
      (o : Resolved) (path : ℕ)
      → env.resolve doc.file_path ≡ o
      → verified_at env doc o ≡ some path
      → IsIntact env doc path
  unfolding verified_at
  verified_at-some storage_error path r e = absurd (ground (arith, e))
  verified_at-some os_error path r e = absurd (ground (arith, e))
  verified_at-some (at_path p) path r e =
      if_both (λ (o : Option ℕ). o ≡ some path → IsIntact env doc path)
        (env.is_file p && same_digest doc.sha256_digest (read_digest env p)) (some p) none
        (λ c same.
          subst (λ n. IsIntact env doc n) (ap (λ o. or_else o path) same) (checked_file p r c))
        (λ c same. absurd (ground (arith, same))) e

  pub verified_path-some : (path : ℕ) → verified_path env doc ≡ some path → IsIntact env doc path
  verified_path-some path e = verified_at-some _ path refl e

  pub verified_path-IsIntact :
      (path : ℕ) → IsIntact env doc path → verified_path env doc ≡ some path
  unfolding verified_at same_digest digest_of
  verified_path-IsIntact path i =
      rw (i.resolved, i.present, i.recorded, i.opened, eq_refl (env.sha256 (read_all i.chunks)))
        refl

stale_stamp : ScanEnv → Option ℕ → Bool
stale_stamp env none = true
stale_stamp env (some stamp) = ltb env.max_signature_age_seconds (env.checked_at - stamp)

module _ (env : ScanEnv) (info : VersionInfo) where
  IsFresh-stamp :
      (o : Option ℕ) → info.signature_timestamp ≡ o → stale_stamp env o ≡ false → IsFresh env info
  unfolding stale_stamp
  IsFresh-stamp none e h = absurd (ground (arith, h))
  IsFresh-stamp (some stamp) e h = record { stamp = stamp; stamped = e; recent = ground (arith, h) }

  pub is_signature_stale-false : is_signature_stale env info ≡ false → IsFresh env info
  unfolding is_signature_stale stale_stamp
  is_signature_stale-false h = IsFresh-stamp info.signature_timestamp refl h

  pub is_signature_stale-IsFresh : IsFresh env info → is_signature_stale env info ≡ false
  unfolding is_signature_stale
  is_signature_stale-IsFresh f = rw f.stamped (ground (arith, f.recent))
