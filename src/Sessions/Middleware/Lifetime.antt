-- ===== src/Sessions/Middleware/Lifetime.antt =====
-- The absolute limit of a session (app/core/sessions/middleware.py).
use mathlib.Core.Path.{subst}
use rfp.Prelude.{List, Option, Text, [], arith, false, none, refl, some, sym, ℕ, ◌+◌, ◌∷◌, ◌≡◌, ◌≤◌}
use rfp.Sessions.{SessionRecord, SessionStore}
use rfp.Sessions.Middleware.{RequestEnv, absolute_anchor, dispatch, is_expired, resolve}
use rfp.Sessions.Middleware.Evolution.{
  Evolves, Live, Resolves, gone, renewed, resolve-Resolves, unchanged,
}
use rfp.Sessions.Middleware.Fixation.{NotMade, requests}
use rfp.Sessions.Middleware.Keeps.{dispatch-Evolves}

-- The record is gone, or its limit counts from the same time as before.
abbrev SameAnchor : ℕ → Option SessionRecord → Type 0
SameAnchor t none = Unit
SameAnchor t (some s) = absolute_anchor s ≡ t

Evolves-SameAnchor :
    (env : RequestEnv) (t : ℕ) (before after : Option SessionRecord)
    → Evolves env before after
    → SameAnchor t before
    → SameAnchor t after
unfolding absolute_anchor
Evolves-SameAnchor env t before _ gone h = tt
Evolves-SameAnchor env t before _ unchanged h = h
Evolves-SameAnchor env t _ _ (renewed {r} {s} live created anchored touched anonymous) h =
    ground (arith, h, created, anchored)

requests-SameAnchor :
    (t : ℕ) (envs : List RequestEnv) (store : SessionStore) (k : Text)
    → NotMade k envs
    → SameAnchor t (store.records k)
    → SameAnchor t ((requests envs store).records k)
unfolding requests
requests-SameAnchor t [] store k made h = h
requests-SameAnchor t (env ∷ envs) store k (fresh, made) h =
    requests-SameAnchor t envs (dispatch env store).1 k made (
      Evolves-SameAnchor env t (store.records k) ((dispatch env store).1.records k)
        (dispatch-Evolves env store k fresh) h)

within :
    (env : RequestEnv) (r : SessionRecord)
    → is_expired env r ≡ false
    → env.now ≤ absolute_anchor r + env.absolute_timeout
unfolding is_expired
within env r e = ground (arith, e)

Live-within :
    (env : RequestEnv) (store : SessionStore) (k : Text) (r r0 : SessionRecord)
    → SameAnchor (absolute_anchor r0) (store.records k)
    → Live env store k r
    → env.now ≤ absolute_anchor r0 + env.absolute_timeout
Live-within env store k r r0 same_anchor live =
    let e : absolute_anchor r ≡ absolute_anchor r0 =
      subst (SameAnchor (absolute_anchor r0)) live.in_store same_anchor in
    omega (arith, e, within env r live.not_expired)

-- A session that is used again and again still ends: if, after any requests that do not make its
-- identifier again, a request is in the session, then the time is within the absolute limit
-- counted from the record that the session had at first.
pub session_ends :
    (envs : List RequestEnv) (env : RequestEnv) (store after : SessionStore) (k : Text)
    (r0 r : SessionRecord)
    → NotMade k envs
    → store.records k ≡ some r0
    → resolve env (requests envs store) ≡ some (some (k, r), after)
    → env.now ≤ absolute_anchor r0 + env.absolute_timeout
session_ends envs env store after k r0 r made at e =
    let first : SameAnchor (absolute_anchor r0) (store.records k) =
      subst (SameAnchor (absolute_anchor r0)) (sym at) refl in
    let (live, evolve) =
      subst (Resolves env (requests envs store)) e (resolve-Resolves env (requests envs store)) in
    Live-within env (requests envs store) k r r0
      (requests-SameAnchor (absolute_anchor r0) envs store k made first) live
