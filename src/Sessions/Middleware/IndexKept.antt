-- ===== src/Sessions/Middleware/IndexKept.antt =====
-- A whole request keeps every session of a user in the user's index (app/core/sessions).
-- A saved record is indexed for its user, or has none.
use mathlib.Core.Option.{some-injective}
use mathlib.Core.Path.{subst}
use rfp.Prelude.{
  Bool, Option, String, Text, ap, arith, false, if_both, inl, inr, leb, member, none, not, refl,
  some, str_eq, sym, true, ℕ, ◌&&◌, ◌∙◌, ◌≡◌,
}
use rfp.Sessions.{
  SessionRecord, SessionStore, delete, get, got, identity_complete, is_valid_session_id,
  keep_loaded, loaded, register_for_user, save, unregister_for_user,
}
use rfp.Sessions.Middleware.{
  Current, Reply, RequestEnv, attempt, clean_index, delete_current, dispatch, finish_as,
  has_current, id_or_new, is_exempt, is_expired, login_ttl, normal_ttl, refresh, remove_expired,
  resolve, resolve_cookie, revoke, rotate, served, store_session, stored_for, unless_expired,
  unregister_maybe, user_of,
}
use rfp.Sessions.Middleware.Indexed.{
  Indexed, delete-Indexed, delete_unregister-Indexed, put-some-inv, register-enters, register-keeps,
}

save-Indexed :
    (s : Text) (q : SessionRecord) (ttl : ℕ) (store : SessionStore)
    → q.user_id ≡ none
    → Indexed store
    → Indexed (save s q ttl store)
unfolding save delete
save-Indexed s q ttl store anonymous h =
    if_both (λ (t : SessionStore). Indexed t) (leb ttl 0) _ _ (λ _. delete-Indexed s store h)
      (λ _. λ k r user e f. elim (put-some-inv s k q store.records r e) [
        | inl (is, same_record) ↦
            absurd (ground (arith, anonymous, f, ap (λ (x : SessionRecord). x.user_id) same_record))
        | inr old ↦ h k r user old f
      ])

entered :
    (user : String) (s : Text) (q : SessionRecord) (store : SessionStore)
    → q.user_id ≡ some user
    → (k : Text) (r : SessionRecord) (other : String) → (s ≡ k) × (q ≡ r)
    → r.user_id ≡ some other
    → member k ((register_for_user user s store).user_index other) ≡ true
entered user s q store owner k r other (is, same_record) f =
    let e : user ≡ other =
      some-injective _ _ (sym owner ∙ ap (λ (x : SessionRecord). x.user_id) same_record ∙ f) in
    subst (λ (u : String). member k ((register_for_user user s store).user_index u) ≡ true) e
      (subst (λ (x : Text). member x ((register_for_user user s store).user_index user) ≡ true) is
        (register-enters user s store))

register_save-Indexed :
    (user : String) (s : Text) (q : SessionRecord) (ttl : ℕ) (store : SessionStore)
    → q.user_id ≡ some user
    → Indexed store
    → Indexed (register_for_user user s (save s q ttl store))
unfolding save delete register_for_user
register_save-Indexed user s q ttl store owner h =
    if_both (λ (t : SessionStore). Indexed (register_for_user user s t)) (leb ttl 0) _ _
      (λ _. λ k r other e f.
        register-keeps user s (delete s store) k other (delete-Indexed s store h k r other e f))
      (λ _. λ k r other e f. elim (put-some-inv s k q store.records r e) [
        | inl new ↦ entered user s q store owner k r other new f
        | inr old ↦ register-keeps user s store k other (h k r other old f)
      ])

both :
    (b : Bool) (call : SessionStore → SessionStore) (store : SessionStore)
    → Indexed store
    → Indexed (call store)
    → Indexed (attempt b call store)
both true call store h c = c
both false call store h c = h

unregistered :
    (user : Option String) (s : Text) (store : SessionStore)
    → Indexed store
    → Indexed (unregister_maybe user s (delete s store))
unfolding unregister_maybe
unregistered none s store h = delete-Indexed s store h
unregistered (some user) s store h =
    if_both Indexed (str_eq user "") _ _ (λ _. delete-Indexed s store h)
      (λ _. delete_unregister-Indexed user s store h)

cleaned :
    (b : Bool) (user : Option String) (s : Text) (store : SessionStore)
    → Indexed store
    → Indexed (attempt b (unregister_maybe user s) (delete s store))
cleaned b user s store h =
    both b (unregister_maybe user s) (delete s store) (delete-Indexed s store h)
      (unregistered user s store h)

module _ (env : RequestEnv) where
  remove_expired-Indexed :
      (s : Text) (r : SessionRecord) (store : SessionStore)
      → Indexed store
      → Indexed (remove_expired env s r store)
  unfolding remove_expired clean_index
  remove_expired-Indexed s r store h =
      both env.can_clean (λ t. clean_index env s r (delete s t)) store h
        (cleaned env.can_clean_index r.user_id s store h)

  abbrev AfterIndexed : Option (Current × SessionStore) → Type 0
  AfterIndexed none = Unit
  AfterIndexed (some (current, after)) = Indexed after

  unless_expired-Indexed :
      (s : Text) (o : Option SessionRecord) (store : SessionStore)
      → Indexed store
      → Indexed (unless_expired env s (o, store)).1
  unfolding unless_expired
  unless_expired-Indexed s none store h = h
  unless_expired-Indexed s (some r) store h =
      if_both (λ (o : Current × SessionStore). Indexed o.1) (is_expired env r) _ _
        (λ _. remove_expired-Indexed s r store h) (λ _. h)

  got-Indexed :
      (s : Text) (o : Option SessionRecord) (store : SessionStore)
      → Indexed store
      → Indexed (unless_expired env s (got env.fits s store o)).1
  unfolding got loaded
  got-Indexed s none store h = unless_expired-Indexed s none store h
  got-Indexed s (some r) store h =
      if_both
        (λ (o : Option SessionRecord). Indexed (unless_expired env s (keep_loaded s store o)).1)
        (env.fits r && identity_complete r.user_id r.org_id r.authenticated_at) _ _
        (λ _. unless_expired-Indexed s (some r) store h)
        (λ _. unless_expired-Indexed s none (delete s store) (delete-Indexed s store h))

  by_cookie-Indexed :
      (store : SessionStore)
      → Indexed store
      → (cookie : Option Text) → AfterIndexed (resolve_cookie env cookie store)
  unfolding resolve_cookie get
  by_cookie-Indexed store h none = h
  by_cookie-Indexed store h (some raw_cookie) =
      if_both AfterIndexed (is_valid_session_id raw_cookie) _ _
        (λ _.
          if_both AfterIndexed env.can_get _ _
            (λ _. got-Indexed raw_cookie (store.records raw_cookie) store h) (λ _. tt))
        (λ _. h)

  resolve-Indexed : (store : SessionStore) → Indexed store → AfterIndexed (resolve env store)
  unfolding resolve
  resolve-Indexed store h = by_cookie-Indexed store h env.cookie

  stored_for-Indexed :
      (s : Text) (q : SessionRecord) (ttl : ℕ) (store : SessionStore) (user : Option String)
      → q.user_id ≡ user
      → env.can_index ≡ true
      → Indexed store
      → Indexed (stored_for env s q ttl store user).1
  unfolding stored_for
  stored_for-Indexed s q ttl store none e can h = save-Indexed s q ttl store e h
  stored_for-Indexed s q ttl store (some user) e can h =
      rw can (register_save-Indexed user s q ttl store e h)

  store_session-Indexed :
      (s : Text) (q : SessionRecord) (ttl : ℕ) (store : SessionStore)
      → env.can_index ≡ true
      → Indexed store
      → Indexed (store_session env s q ttl store).1
  unfolding store_session
  store_session-Indexed s q ttl store can h =
      if_both (λ (o : Reply × SessionStore). Indexed o.1) env.can_save _ _
        (λ _. stored_for-Indexed s q ttl store q.user_id refl can h) (λ _. h)

  delete_current-Indexed :
      (current : Current) (store : SessionStore)
      → Indexed store
      → Indexed (delete_current current store)
  unfolding delete_current
  delete_current-Indexed none store h = h
  delete_current-Indexed (some (s, r)) store h = delete-Indexed s store h

  rotate-Indexed :
      (current : Current) (q : SessionRecord) (store : SessionStore)
      → env.can_index ≡ true
      → Indexed store
      → Indexed (rotate env current q store).1
  unfolding rotate
  rotate-Indexed current q store can h =
      if_both (λ (o : Reply × SessionStore). Indexed o.1)
        (has_current current && not env.can_delete) _ _ (λ _. h)
        (λ _.
          store_session-Indexed env.new_session_id _ (login_ttl env) (delete_current current store)
            can (delete_current-Indexed current store h))

  revoke-Indexed :
      (user : String) (current : Current) (store : SessionStore)
      → Indexed store
      → Indexed (revoke env user current store).1
  unfolding revoke
  revoke-Indexed user none store h = h
  revoke-Indexed user (some (s, r)) store h =
      if_both (λ (o : Reply × SessionStore). Indexed o.1) env.can_delete _ _
        (λ _.
          both env.can_index (unregister_for_user user s) (delete s store)
            (delete-Indexed s store h) (delete_unregister-Indexed user s store h))
        (λ _. h)

  finish_as-Indexed :
      (current : Current) (q : SessionRecord) (was is : Option String) (store : SessionStore)
      → env.can_index ≡ true
      → Indexed store
      → Indexed (finish_as env current q was is store).1
  unfolding finish_as refresh
  finish_as-Indexed current q (some user) none store can h = revoke-Indexed user current store h
  finish_as-Indexed current q none (some user) store can h = rotate-Indexed current q store can h
  finish_as-Indexed current q none none store can h =
      store_session-Indexed (id_or_new env current) q (normal_ttl env q) store can h
  finish_as-Indexed current q (some a) (some b) store can h =
      store_session-Indexed (id_or_new env current) q (normal_ttl env q) store can h

  served-Indexed :
      (store : SessionStore)
      → env.can_index ≡ true
      → Indexed store
      → (o : Option (Current × SessionStore)) → AfterIndexed o
      → Indexed (served env o store).1
  unfolding served
  served-Indexed store can h none a = h
  served-Indexed store can h (some (current, after)) a =
      finish_as-Indexed current _ (user_of current) _ after can a

-- A request keeps every session of a user in that user's index, if the calls on the index succeed.
pub dispatch-Indexed :
    (env : RequestEnv) (store : SessionStore)
    → env.can_index ≡ true
    → Indexed store
    → Indexed (dispatch env store).1
unfolding dispatch
dispatch-Indexed env store can h =
    if_both (λ (o : Reply × SessionStore). Indexed o.1) (is_exempt env.path) _ _ (λ _. h)
      (λ _. served-Indexed env store can h (resolve env store) (resolve-Indexed env store h))
