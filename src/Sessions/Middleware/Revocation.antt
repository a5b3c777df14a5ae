-- ===== src/Sessions/Middleware/Revocation.antt =====
-- The revocation of all sessions of a user in InMemorySessionStore (app/core/sessions/store.py), after
-- any requests. The Redis store, whose index has a time to live, is not modelled.
use rfp.Prelude.{
  All, Bool-cases, List, Option, String, Text, [], arith, if_both, inl, inr, member, none, refl,
  same_text, same_text_iff, some, sym, true, ◌∷◌, ◌≡◌, ◌≢◌,
}
use rfp.Sessions.{SessionRecord, SessionStore, pop_all, put, revoke_all_for_user}
use rfp.Sessions.Middleware.{RequestEnv, dispatch}
use rfp.Sessions.Middleware.Fixation.{requests}
use rfp.Sessions.Middleware.IndexKept.{dispatch-Indexed}
use rfp.Sessions.Middleware.Indexed.{Indexed, put-none-inv}

abbrev pub Indexes : List RequestEnv → Type 0
Indexes envs = All (λ (env : RequestEnv). env.can_index ≡ true) envs

requests-Indexed :
    (envs : List RequestEnv) (store : SessionStore)
    → Indexes envs
    → Indexed store
    → Indexed (requests envs store)
unfolding requests
requests-Indexed [] store can h = h
requests-Indexed (env ∷ envs) store (can, rest) h =
    requests-Indexed envs (dispatch env store).1 rest (dispatch-Indexed env store can h)

put_same_none :
    (m k : Text) (records : Text → Option SessionRecord)
    → same_text k m ≡ true
    → put m none records k ≡ none
unfolding put
put_same_none m k records e =
    let e' : m ≡ k = sym ((same_text_iff k m).0 e) in rw ((same_text_iff m k).1 e') refl

put-none_stays :
    (m k : Text) (records : Text → Option SessionRecord)
    → records k ≡ none
    → put m none records k ≡ none
unfolding put
put-none_stays m k records e =
    if_both (λ (o : Option SessionRecord). o ≡ none) (same_text m k) _ _ (λ _. refl) (λ _. e)

pop_all_stays :
    (ms : List Text) (k : Text) (records : Text → Option SessionRecord)
    → records k ≡ none
    → (pop_all ms records).0 k ≡ none
unfolding pop_all
pop_all_stays [] k records e = e
pop_all_stays (m ∷ ms) k records e =
    pop_all_stays ms k (put m none records) (put-none_stays m k records e)

pop_all-member :
    (ms : List Text) (k : Text) (records : Text → Option SessionRecord)
    → member k ms ≡ true
    → (pop_all ms records).0 k ≡ none
unfolding pop_all member
pop_all-member [] k records e = absurd (ground (arith, e))
pop_all-member (m ∷ ms) k records e = elim (Bool-cases (same_text k m)) [
  | inl is ↦ pop_all_stays ms k (put m none records) (put_same_none m k records is)
  | inr is_not ↦ pop_all-member ms k (put m none records) (ground (arith, e, is_not))
]

put_keeps_none :
    (m k : Text) (records : Text → Option SessionRecord) (r : SessionRecord)
    → put m none records k ≡ some r
    → records k ≡ some r
put_keeps_none m k records r e = (put-none-inv m k records r e).1

pop_all-inv :
    (ms : List Text) (k : Text) (records : Text → Option SessionRecord) (r : SessionRecord)
    → (pop_all ms records).0 k ≡ some r
    → records k ≡ some r
unfolding pop_all
pop_all-inv [] k records r e = e
pop_all-inv (m ∷ ms) k records r e =
    put_keeps_none m k records r (pop_all-inv ms k (put m none records) r e)

revoked_none :
    (user : String) (store : SessionStore)
    → Indexed store
    → (k : Text) (r : SessionRecord) → (revoke_all_for_user user store).1.records k ≡ some r
    → ¬ (r.user_id ≡ some user)
unfolding revoke_all_for_user
revoked_none user store h k r e owner =
    let old = pop_all-inv (store.user_index user) k store.records r e in
    ground (arith, e, pop_all-member (store.user_index user) k store.records (h k r user old owner))

-- In the in-memory store, whose index does not expire: after any requests on a store whose sessions are
-- indexed, in which the calls on the index succeed, revoking the sessions of a user leaves no
-- identifier that names a session of that user.
pub requests-revoke_all :
    (envs : List RequestEnv) (store : SessionStore) (user : String)
    → Indexes envs
    → Indexed store
    → (k : Text) (r : SessionRecord)
    → (revoke_all_for_user user (requests envs store)).1.records k ≡ some r
    → r.user_id ≢ some user
requests-revoke_all envs store user can h =
    revoked_none user (requests envs store) (requests-Indexed envs store can h)
