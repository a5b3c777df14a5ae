-- ===== src/Sessions/Middleware/Keeps.antt =====
-- A whole request, for the record under an identifier that it does not make
-- (app/core/sessions/middleware.py).
use mathlib.Core.Path.{subst}
use rfp.Prelude.{
  Option, String, Text, ap, arith, false, if_both, leb, none, not, refl, same_text, same_text_iff,
  some, sym, true, ℕ, ◌&&◌, ◌∙◌, ◌≡◌,
}
use rfp.Sessions.{
  SessionRecord, SessionStore, delete, put, register_for_user, save, unregister_for_user,
}
use rfp.Sessions.Middleware.{
  Current, Reply, RequestEnv, active_record, delete_current, dispatch, finish_as, has_current,
  id_or_new, is_exempt, is_expired, login_ttl, normal_ttl, refresh, resolve, revoke, rotate, routed,
  served, store_session, stored_for, user_of, write_back,
}
use rfp.Sessions.Middleware.Evolution.{
  Evolves, IsLive, Ok, Resolves, attempt-Evolves, delete-Evolves, renewed, resolve-Resolves,
  unchanged,
}

put_other :
    (session_id k : Text) (entry : Option SessionRecord) (records : Text → Option SessionRecord)
    → same_text session_id k ≡ false
    → put session_id entry records k ≡ records k
unfolding put
put_other session_id k entry records e = rw e refl

-- The route's record `s` of the current session `r`.
pub record Renews (env : RequestEnv) (r s : SessionRecord) : Type 0 where
  pub not_late : is_expired env r ≡ false
  pub created : s.created_at ≡ r.created_at
  pub anchored : s.authenticated_at ≡ r.authenticated_at
  pub touched : s.last_activity_at ≡ env.now
  pub still_anonymous : r.user_id ≡ none → s.user_id ≡ none

module _ (env : RequestEnv) (before : Option SessionRecord) (k : Text)
    (fresh : same_text env.new_session_id k ≡ false) where
  save_other-Evolves :
      (session_id : Text) (s : SessionRecord) (ttl : ℕ) (store : SessionStore)
      → same_text session_id k ≡ false
      → Ok env before k store
      → Ok env before k (save session_id s ttl store)
  unfolding save
  save_other-Evolves session_id s ttl store e h =
      if_both (Ok env before k) (leb ttl 0) _ _
        (λ _. delete-Evolves env before k session_id store h)
        (λ _. rw (put_other session_id k (some s) store.records e) h)

  save_renewed-Evolves :
      (session_id : Text) (r s : SessionRecord) (ttl : ℕ) (store : SessionStore)
      → (same_text session_id k ≡ true → before ≡ some r)
      → Renews env r s
      → Ok env before k store
      → Ok env before k (save session_id s ttl store)
  unfolding save put
  save_renewed-Evolves session_id r s ttl store at_k new h =
      if_both (Ok env before k) (leb ttl 0) _ _
        (λ _. delete-Evolves env before k session_id store h)
        (λ _.
          if_both (Evolves env before) (same_text session_id k) _ _
            (λ e.
              subst (λ (o : Option SessionRecord). Evolves env o (some s)) (sym (at_k e))
                (renewed new.not_late new.created new.anchored new.touched new.still_anonymous))
            (λ _. h))

  indexed :
      (session_id : Text) (s : SessionRecord) (ttl : ℕ) (store : SessionStore)
      → Ok env before k (save session_id s ttl store)
      → (user : Option String) → Ok env before k (stored_for env session_id s ttl store user).1
  unfolding stored_for register_for_user
  indexed session_id s ttl store saved none = saved
  indexed session_id s ttl store saved (some user) =
      attempt-Evolves env before k env.can_index _ (save session_id s ttl store) saved saved

  store_session-Evolves :
      (session_id : Text) (s : SessionRecord) (ttl : ℕ) (store : SessionStore)
      → Ok env before k store
      → Ok env before k (save session_id s ttl store)
      → Ok env before k (store_session env session_id s ttl store).1
  unfolding store_session register_for_user
  store_session-Evolves session_id s ttl store h saved =
      if_both (λ (o : Reply × SessionStore). Ok env before k o.1) env.can_save _ _
        (λ _. indexed session_id s ttl store saved s.user_id) (λ _. h)

  delete_current-Evolves :
      (current : Current) (store : SessionStore)
      → Ok env before k store
      → Ok env before k (delete_current current store)
  unfolding delete_current
  delete_current-Evolves none store h = h
  delete_current-Evolves (some (session_id, r)) store h =
      delete-Evolves env before k session_id store h

  rotate-Evolves :
      (current : Current) (s : SessionRecord) (store : SessionStore)
      → Ok env before k store
      → Ok env before k (rotate env current s store).1
  unfolding rotate
  rotate-Evolves current s store h =
      let d = delete_current-Evolves current store h in
      if_both (λ (o : Reply × SessionStore). Ok env before k o.1)
        (has_current current && not env.can_delete) _ _ (λ _. h)
        (λ _.
          store_session-Evolves env.new_session_id _ (login_ttl env) (delete_current current store)
            d
            (save_other-Evolves env.new_session_id _ (login_ttl env) (delete_current current store)
              fresh d))

  revoke-Evolves :
      (user : String) (current : Current) (store : SessionStore)
      → Ok env before k store
      → Ok env before k (revoke env user current store).1
  unfolding revoke unregister_for_user
  revoke-Evolves user none store h = h
  revoke-Evolves user (some (session_id, r)) store h =
      let d = delete-Evolves env before k session_id store h in
      if_both (λ (o : Reply × SessionStore). Ok env before k o.1) env.can_delete _ _
        (λ _. attempt-Evolves env before k env.can_index _ (delete session_id store) d d) (λ _. h)

  -- The current session, if it is the one under `k`, and its record after the route.
  CurrentAt : Current → SessionRecord → Type 0
  CurrentAt none s = Unit
  CurrentAt (some (session_id, r)) s =
      (same_text session_id k ≡ true → before ≡ some r) × Renews env r s

  refresh-Evolves :
      (current : Current) (s : SessionRecord) (store : SessionStore)
      → CurrentAt current s
      → Ok env before k store
      → Ok env before k (refresh env current s store).1
  unfolding refresh CurrentAt id_or_new
  refresh-Evolves none s store c h =
      store_session-Evolves env.new_session_id s (normal_ttl env s) store h
        (save_other-Evolves env.new_session_id s (normal_ttl env s) store fresh h)
  refresh-Evolves (some (session_id, r)) s store (at_k, new) h =
      store_session-Evolves session_id s (normal_ttl env s) store h
        (save_renewed-Evolves session_id r s (normal_ttl env s) store at_k new h)

  Renews-routed :
      (session_id : Text) (r : SessionRecord)
      → is_expired env r ≡ false
      → (r.user_id ≡ none → (routed env (active_record env (some (session_id, r)))).user_id ≡ none)
      → Renews env r (routed env (active_record env (some (session_id, r))))
  unfolding routed active_record write_back
  Renews-routed session_id r live anonymous = record {
    not_late = live;
    created = refl;
    anchored = refl;
    touched = refl;
    still_anonymous = anonymous;
  }

  refresh_current :
      (store0 : SessionStore) (current : Current) (store : SessionStore)
      → store0.records k ≡ before
      → IsLive env store0 current
      → (user_of current ≡ none → (routed env (active_record env current)).user_id ≡ none)
      → Ok env before k store
      → Ok env before k (refresh env current (routed env (active_record env current)) store).1
  unfolding CurrentAt user_of
  refresh_current store0 none store at live anonymous h = refresh-Evolves none _ store tt h
  refresh_current store0 (some (session_id, r)) store at live anonymous h =
      refresh-Evolves (some (session_id, r)) _ store
        (
          λ e. sym at ∙ ap store0.records (sym ((same_text_iff session_id k).0 e)) ∙ live.in_store,
          Renews-routed session_id r live.not_expired anonymous,
        )
        h

  finish_as-Evolves :
      (store0 : SessionStore) (current : Current) (store : SessionStore)
      → store0.records k ≡ before
      → IsLive env store0 current
      → Ok env before k store
      → (was is : Option String) → user_of current ≡ was
      → (routed env (active_record env current)).user_id ≡ is
      → Ok env before k
          (finish_as env current (routed env (active_record env current)) was is store).1
  unfolding finish_as
  finish_as-Evolves store0 current store at live h (some user) none e f =
      revoke-Evolves user current store h
  finish_as-Evolves store0 current store at live h none (some user) e f =
      rotate-Evolves current (routed env (active_record env current)) store h
  finish_as-Evolves store0 current store at live h none none e f =
      refresh_current store0 current store at live (λ _. f) h
  finish_as-Evolves store0 current store at live h (some a) (some b) e f =
      refresh_current store0 current store at live (λ d. absurd (ground (arith, d, e))) h

  served-Evolves :
      (store : SessionStore)
      → store.records k ≡ before
      → (o : Option (Current × SessionStore)) → Resolves env store o
      → Ok env before k (served env o store).1
  unfolding served
  served-Evolves store at none h =
      subst (λ (o : Option SessionRecord). Evolves env before o) (sym at) unchanged
  served-Evolves store at (some (current, after)) (live, evolve) =
      finish_as-Evolves store current after at live
        (subst (λ (o : Option SessionRecord). Evolves env o (after.records k)) at (evolve k)) _ _
        refl refl

-- Whatever calls of the store fail, a request leaves the record under an identifier that it does
-- not make as it was, removes it, or renews it; only the session of its own cookie, stored, complete
-- and not expired, is renewed, and that keeps the two times that its absolute limit counts from, and
-- keeps an anonymous session anonymous.
pub dispatch-Evolves :
    (env : RequestEnv) (store : SessionStore) (k : Text)
    → same_text env.new_session_id k ≡ false
    → Evolves env (store.records k) ((dispatch env store).1.records k)
unfolding dispatch
dispatch-Evolves env store k fresh =
    if_both (λ (o : Reply × SessionStore). Evolves env (store.records k) (o.1.records k))
      (is_exempt env.path) _ _ (λ _. unchanged)
      (λ _.
        served-Evolves env (store.records k) k fresh store refl (resolve env store)
          (resolve-Resolves env store))
