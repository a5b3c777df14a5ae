-- ===== src/Sessions/Middleware/Evolution.antt =====
-- What one request can do to the record under an identifier that it does not make
-- (app/core/sessions/middleware.py).
use rfp.Prelude.{
  Bool, Option, String, Text, arith, false, if_both, none, refl, same_text, some, str_eq, true,
  ◌&&◌, ◌≡◌,
}
use rfp.Sessions.{
  SessionRecord, SessionStore, delete, get, got, identity_complete, is_valid_session_id,
  keep_loaded, loaded, put, unregister_for_user,
}
use rfp.Sessions.Middleware.{
  Current, RequestEnv, attempt, clean_index, is_expired, remove_expired, resolve, resolve_cookie,
  unless_expired, unregister_maybe,
}

-- The record under an identifier, before and after: it is gone, as it was, or the renewed record of a
-- session that had not expired.
pub data Evolves (env : RequestEnv) : Option SessionRecord → Option SessionRecord → Type 0 where
  gone : {before : Option SessionRecord} → Evolves env before none
  unchanged : {before : Option SessionRecord} → Evolves env before before
  renewed :
      {r s : SessionRecord}
      → is_expired env r ≡ false
      → s.created_at ≡ r.created_at
      → s.authenticated_at ≡ r.authenticated_at
      → s.last_activity_at ≡ env.now
      → (r.user_id ≡ none → s.user_id ≡ none)
      → Evolves env (some r) (some s)

-- What the current session of a request is.
pub record Live (env : RequestEnv) (store : SessionStore) (session_id : Text) (r : SessionRecord)
    : Type 0 where
  pub from_cookie : env.cookie ≡ some session_id
  pub well_formed : is_valid_session_id session_id ≡ true
  pub in_store : store.records session_id ≡ some r
  pub whole : identity_complete r.user_id r.org_id r.authenticated_at ≡ true
  pub not_expired : is_expired env r ≡ false

abbrev pub IsLive : RequestEnv → SessionStore → Current → Type 0
IsLive env store none = Unit
IsLive env store (some (session_id, r)) = Live env store session_id r

abbrev pub Resolves : RequestEnv → SessionStore → Option (Current × SessionStore) → Type 0
Resolves env store none = Unit
Resolves env store (some (current, after)) =
    IsLive env store current × ((k : Text) → Evolves env (store.records k) (after.records k))

module _ (env : RequestEnv) (before : Option SessionRecord) (k : Text) where
  abbrev pub Ok : SessionStore → Type 0
  Ok store = Evolves env before (store.records k)

  pub delete-Evolves :
      (session_id : Text) (store : SessionStore) → Ok store → Ok (delete session_id store)
  unfolding delete put
  delete-Evolves session_id store h =
      if_both (Evolves env before) (same_text session_id k) _ _ (λ _. gone) (λ _. h)

  pub attempt-Evolves :
      (b : Bool) (call : SessionStore → SessionStore) (store : SessionStore)
      → Ok store
      → Ok (call store)
      → Ok (attempt b call store)
  attempt-Evolves true call store h c = c
  attempt-Evolves false call store h c = h

  unregister-Evolves :
      (user : Option String) (session_id : Text) (store : SessionStore)
      → Ok store
      → Ok (unregister_maybe user session_id store)
  unfolding unregister_maybe unregister_for_user
  unregister-Evolves none session_id store h = h
  unregister-Evolves (some user) session_id store h =
      if_both (λ (s : SessionStore). Ok s) (str_eq user "") _ _ (λ _. h) (λ _. h)

  remove_expired-Evolves :
      (session_id : Text) (r : SessionRecord) (store : SessionStore)
      → Ok store
      → Ok (remove_expired env session_id r store)
  unfolding remove_expired clean_index
  remove_expired-Evolves session_id r store h =
      let deleted = delete-Evolves session_id store h in
      attempt-Evolves env.can_clean _ store h (
        attempt-Evolves env.can_clean_index _ (delete session_id store) deleted
          (unregister-Evolves r.user_id session_id (delete session_id store) deleted))

unless_expired-Resolves :
    (env : RequestEnv) (store : SessionStore) (session_id : Text) (r : SessionRecord)
    → env.cookie ≡ some session_id
    → is_valid_session_id session_id ≡ true
    → store.records session_id ≡ some r
    → identity_complete r.user_id r.org_id r.authenticated_at ≡ true
    → Resolves env store (some (unless_expired env session_id (some r, store)))
unfolding unless_expired
unless_expired-Resolves env store session_id r cookie valid in_store whole =
    if_both (λ (o : Current × SessionStore). Resolves env store (some o)) (is_expired env r) _ _
      (λ _. (tt, λ k. remove_expired-Evolves env (store.records k) k session_id r store unchanged))
      (λ e. (
        record {
          from_cookie = cookie;
          well_formed = valid;
          in_store = in_store;
          whole = whole;
          not_expired = e;
        },
        λ k. unchanged,
      ))

got-Resolves :
    (env : RequestEnv) (store : SessionStore) (session_id : Text) (o : Option SessionRecord)
    → env.cookie ≡ some session_id
    → is_valid_session_id session_id ≡ true
    → store.records session_id ≡ o
    → Resolves env store (some (unless_expired env session_id (got env.fits session_id store o)))
unfolding unless_expired got loaded
got-Resolves env store session_id none cookie valid e = (tt, λ k. unchanged)
got-Resolves env store session_id (some r) cookie valid e =
    if_both
      (λ (o : Option SessionRecord).
        Resolves env store (some (unless_expired env session_id (keep_loaded session_id store o))))
      (env.fits r && identity_complete r.user_id r.org_id r.authenticated_at) _ _
      (λ fine. unless_expired-Resolves env store session_id r cookie valid e (ground (arith, fine)))
      (λ _. (tt, λ k. delete-Evolves env (store.records k) k session_id store unchanged))

by_cookie :
    (env : RequestEnv) (store : SessionStore) (cookie : Option Text)
    → env.cookie ≡ cookie
    → Resolves env store (resolve_cookie env cookie store)
unfolding resolve_cookie get
by_cookie env store none e = (tt, λ k. unchanged)
by_cookie env store (some raw_cookie) e =
    if_both (Resolves env store) (is_valid_session_id raw_cookie) _ _
      (λ valid.
        if_both (Resolves env store) env.can_get _ _
          (λ _. got-Resolves env store raw_cookie (store.records raw_cookie) e valid refl)
          (λ _. tt))
      (λ _. (tt, λ k. unchanged))

pub resolve-Resolves :
    (env : RequestEnv) (store : SessionStore) → Resolves env store (resolve env store)
unfolding resolve
resolve-Resolves env store = by_cookie env store env.cookie refl
