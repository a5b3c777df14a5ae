-- ===== src/Sessions/Middleware.antt =====
-- app/core/sessions/middleware.py: what one request does to the sessions.
pub mod Evolution
pub mod Keeps
pub mod Fixation
pub mod Lifetime
pub mod Indexed
pub mod IndexKept
pub mod Revocation
mod Examples
use rfp.Evidence.{starts_with}
use rfp.Prelude.{
  Bool, List, Option, String, Text, [], false, if◌then◌else◌, ltb, max, member, min, none, not,
  or_else, some, str_eq, true, ℕ, ◌&&◌, ◌+◌, ◌-◌, ◌||◌, ◌∷◌,
}
use rfp.Sessions.{
  SessionRecord, SessionStore, delete, get, is_valid_session_id, register_for_user, save,
  unregister_for_user,
}

-- "/healthz", "/health", "/readyz" and "/metrics"
abbrev pub exempt_exact : List Text
exempt_exact =
    (0x2f ∷ 0x68 ∷ 0x65 ∷ 0x61 ∷ 0x6c ∷ 0x74 ∷ 0x68 ∷ 0x7a ∷ [])
    ∷ (0x2f ∷ 0x68 ∷ 0x65 ∷ 0x61 ∷ 0x6c ∷ 0x74 ∷ 0x68 ∷ [])
    ∷ (0x2f ∷ 0x72 ∷ 0x65 ∷ 0x61 ∷ 0x64 ∷ 0x79 ∷ 0x7a ∷ [])
    ∷ (0x2f ∷ 0x6d ∷ 0x65 ∷ 0x74 ∷ 0x72 ∷ 0x69 ∷ 0x63 ∷ 0x73 ∷ [])
    ∷ []

-- "/static"
abbrev pub exempt_prefix : Text
exempt_prefix = 0x2f ∷ 0x73 ∷ 0x74 ∷ 0x61 ∷ 0x74 ∷ 0x69 ∷ 0x63 ∷ []

unfoldable pub is_exempt : Text → Bool
is_exempt path = member path exempt_exact || starts_with exempt_prefix path

-- The view of a record that SessionProxy gives to the routes: three keys and no times.
pub record SessionProxy : Type 0 where
  pub view_user_id : Option String
  pub view_org_id : Option String
  pub view_csrf_token : Option String

unfoldable pub proxy_of : SessionRecord → SessionProxy
proxy_of r = record {
  view_user_id = r.user_id;
  view_org_id = r.org_id;
  view_csrf_token = r.csrf_token;
}

unfoldable pub write_back : SessionProxy → SessionRecord → SessionRecord
write_back view r = record r {
  user_id = view.view_user_id;
  org_id = view.view_org_id;
  csrf_token = view.view_csrf_token;
}

-- `SessionProxy.clear`
unfoldable pub clear : SessionProxy → SessionProxy
clear view = record { view_user_id = none; view_org_id = none; view_csrf_token = none }

-- What one request meets: the settings, the clock before and after the route, the route, fresh tokens,
-- and for each call of the store whether it succeeds.
pub record RequestEnv : Type 0 where
  pub path : Text
  pub cookie : Option Text
  pub fits : SessionRecord → Bool
  pub now : ℕ
  pub now_after : ℕ
  pub idle_timeout : ℕ
  pub absolute_timeout : ℕ
  pub route : SessionProxy → SessionProxy
  pub new_session_id : Text
  pub new_csrf_token : String
  pub can_get : Bool
  pub can_clean : Bool
  pub can_clean_index : Bool
  pub can_delete : Bool
  pub can_save : Bool
  pub can_index : Bool

pub data CookieChange : Type 0 where
  keep_cookie delete_cookie : CookieChange
  set_cookie : Text → CookieChange

-- The route's response with its cookie, or the 503 that stands in for it.
pub data Reply : Type 0 where
  response : CookieChange → Reply
  service_unavailable : Reply

unfoldable pub absolute_anchor : SessionRecord → ℕ
absolute_anchor r = or_else r.authenticated_at r.created_at

-- `now - then > timeout`
unfoldable pub is_expired : RequestEnv → SessionRecord → Bool
is_expired env r =
    ltb (r.last_activity_at + env.idle_timeout) env.now
    || ltb (absolute_anchor r + env.absolute_timeout) env.now

-- A call of the store and what follows it in the same `try`; a failure leaves the rest out.
abbrev pub attempt : Bool → (SessionStore → SessionStore) → SessionStore → SessionStore
attempt true call store = call store
attempt false call store = store

unregister_maybe : Option String → Text → SessionStore → SessionStore
unregister_maybe none session_id store = store
unregister_maybe (some user) session_id store =
    if str_eq user "" then store else unregister_for_user user session_id store

clean_index : RequestEnv → Text → SessionRecord → SessionStore → SessionStore
unfolding unregister_maybe
clean_index env session_id r store =
    attempt env.can_clean_index (unregister_maybe r.user_id session_id) store

-- The cleanup of an expired session; what it cannot reach stays.
remove_expired : RequestEnv → Text → SessionRecord → SessionStore → SessionStore
unfolding clean_index
remove_expired env session_id r store =
    attempt env.can_clean (λ s. clean_index env session_id r (delete session_id s)) store

-- The session that a request is in: its identifier with its record, or none.
abbrev pub Current : Type 0
Current = Option (Text × SessionRecord)

unless_expired : RequestEnv → Text → Option SessionRecord × SessionStore → Current × SessionStore
unfolding remove_expired
unless_expired env session_id (none, store) = (none, store)
unless_expired env session_id (some r, store) =
    if is_expired env r
    then (none, remove_expired env session_id r store)
    else (some (session_id, r), store)

resolve_cookie : RequestEnv → Option Text → SessionStore → Option (Current × SessionStore)
unfolding unless_expired
resolve_cookie env none store = some (none, store)
resolve_cookie env (some raw_cookie) store =
    if is_valid_session_id raw_cookie
    then if env.can_get
      then some (unless_expired env raw_cookie (get env.fits raw_cookie store))
      else none
    else some (none, store)

-- The current session, or nothing if the store cannot be read.
unfoldable pub resolve : RequestEnv → SessionStore → Option (Current × SessionStore)
unfolding resolve_cookie
resolve env store = resolve_cookie env env.cookie store

-- The record that the route works on, with its activity time set.
unfoldable pub active_record : RequestEnv → Current → SessionRecord
active_record env none = record {
  created_at = env.now;
  last_activity_at = env.now;
  csrf_token = none;
  user_id = none;
  org_id = none;
  authenticated_at = none;
}
active_record env (some (session_id, r)) = record r { last_activity_at = env.now }

-- The record after the route, with a CSRF token.
unfoldable pub routed : RequestEnv → SessionRecord → SessionRecord
routed env r =
    let r' = write_back (env.route (proxy_of r)) r in
    record r' { csrf_token = some (or_else r'.csrf_token env.new_csrf_token) }

delete_current : Current → SessionStore → SessionStore
delete_current none store = store
delete_current (some (session_id, r)) store = delete session_id store

-- The user logged out.
revoke : RequestEnv → String → Current → SessionStore → Reply × SessionStore
revoke env user none store = (response delete_cookie, store)
revoke env user (some (session_id, r)) store =
    if env.can_delete
    then (
      response (if env.can_index then delete_cookie else keep_cookie),
      attempt env.can_index (unregister_for_user user session_id) (delete session_id store),
    )
    else (response keep_cookie, store)

-- `save`, and then the index if there is a user.
stored_for :
    RequestEnv → Text → SessionRecord → ℕ → SessionStore → Option String → Reply × SessionStore
stored_for env session_id r ttl store none =
    (response (set_cookie session_id), save session_id r ttl store)
stored_for env session_id r ttl store (some user) = (
  response (if env.can_index then set_cookie session_id else keep_cookie),
  attempt env.can_index (register_for_user user session_id) (save session_id r ttl store),
)

store_session : RequestEnv → Text → SessionRecord → ℕ → SessionStore → Reply × SessionStore
unfolding stored_for
store_session env session_id r ttl store =
    if env.can_save
    then stored_for env session_id r ttl store r.user_id
    else (response keep_cookie, store)

unfoldable pub login_ttl : RequestEnv → ℕ
login_ttl env = max 1 (min env.idle_timeout env.absolute_timeout)

unfoldable pub normal_ttl : RequestEnv → SessionRecord → ℕ
normal_ttl env r =
    max 1 (min env.idle_timeout ((env.absolute_timeout + absolute_anchor r) - env.now_after))

has_current : Current → Bool
has_current none = false
has_current (some c) = true

-- The user logged in: the identifier from before is deleted and a new one is made.
rotate : RequestEnv → Current → SessionRecord → SessionStore → Reply × SessionStore
unfolding delete_current store_session has_current
rotate env current r store =
    if has_current current && not env.can_delete
    then (response keep_cookie, store)
    else store_session env env.new_session_id (record r { authenticated_at = some env.now_after })
        (login_ttl env) (delete_current current store)

id_or_new : RequestEnv → Current → Text
id_or_new env none = env.new_session_id
id_or_new env (some (session_id, r)) = session_id

-- Anything else.
refresh : RequestEnv → Current → SessionRecord → SessionStore → Reply × SessionStore
unfolding store_session id_or_new
refresh env current r store = store_session env (id_or_new env current) r (normal_ttl env r) store

-- From the user before the route and the user after it.
finish_as :
    RequestEnv
    → Current
    → SessionRecord
    → Option String
    → Option String
    → SessionStore
    → Reply × SessionStore
unfolding revoke rotate refresh
finish_as env current r (some user) none store = revoke env user current store
finish_as env current r none (some user) store = rotate env current r store
finish_as env current r _ _ store = refresh env current r store

user_of : Current → Option String
user_of none = none
user_of (some (session_id, r)) = r.user_id

served : RequestEnv → Option (Current × SessionStore) → SessionStore → Reply × SessionStore
unfolding finish_as user_of
served env none store = (service_unavailable, store)
served env (some (current, store')) store =
    let r = routed env (active_record env current) in
    finish_as env current r (user_of current) r.user_id store'

unfoldable pub dispatch : RequestEnv → SessionStore → Reply × SessionStore
unfolding served
dispatch env store =
    if is_exempt env.path
    then (response keep_cookie, store)
    else served env (resolve env store) store
