-- ===== src/Sessions/Middleware/Examples.antt =====
-- Tests of app/core/sessions, and its theorems at concrete inputs.
use rfp.Evidence.{starts_with}
use rfp.Prelude.{
  List, Option, String, Text, [], arith, if◌then◌else◌, member, none, refl, same_text, some, suc,
  true, zero, ℕ, ◌++◌, ◌+◌, ◌∷◌, ◌≡◌, ◌≢◌, ◌≤◌,
}
use rfp.Sessions.{
  SessionRecord, SessionStore, add_member, delete, discard, get, identity_complete, is_id_char,
  is_valid_session_id, loaded, matches_charset, put, register_for_user, revoke_all_for_user, save,
  set_index, unregister_for_user,
}
use rfp.Sessions.Middleware.{
  RequestEnv, SessionProxy, absolute_anchor, active_record, dispatch, is_exempt, is_expired,
  login_ttl, normal_ttl, proxy_of, resolve, routed, write_back,
}
use rfp.Sessions.Middleware.Evolution.{Evolves, Resolves, resolve-Resolves}
use rfp.Sessions.Middleware.Fixation.{Anonymous, requests, requests_keep-Anonymous}
use rfp.Sessions.Middleware.Indexed.{Indexed}
use rfp.Sessions.Middleware.Keeps.{dispatch-Evolves}
use rfp.Sessions.Middleware.Lifetime.{session_ends}
use rfp.Sessions.Middleware.Revocation.{requests-revoke_all}

repeat_char : ℕ → ℕ → Text
repeat_char zero c = []
repeat_char (suc n) c = c ∷ repeat_char n c

-- Two identifiers of 43 characters.
abbrev id_a : Text
id_a = repeat_char 43 0x61

abbrev id_b : Text
id_b = repeat_char 43 0x62

abbrev empty_store : SessionStore
empty_store = record { records = λ k. none; user_index = λ user. [] }

abbrev log_in : SessionProxy → SessionProxy
log_in view = record { view_user_id = some "u"; view_org_id = some "o"; view_csrf_token = some "c" }

abbrev log_in_other : SessionProxy → SessionProxy
log_in_other view = record {
  view_user_id = some "v";
  view_org_id = some "o";
  view_csrf_token = some "c";
}

-- A request with that cookie at that time.
abbrev request : Option Text → ℕ → Text → (SessionProxy → SessionProxy) → RequestEnv
request cookie now fresh route = record {
  path = 0x2f ∷ [];
  cookie = cookie;
  fits = λ r. true;
  now = now;
  now_after = now;
  idle_timeout = 100;
  absolute_timeout = 150;
  route = route;
  new_session_id = fresh;
  new_csrf_token = "t";
  can_get = true;
  can_clean = true;
  can_clean_index = true;
  can_delete = true;
  can_save = true;
  can_index = true;
}

-- An anonymous visit and then a login.
abbrev visit_and_login : List RequestEnv
visit_and_login = request none 10 id_a (λ view. view) ∷ request (some id_a) 20 id_b log_in ∷ []

abbrev anonymous_session : SessionRecord
anonymous_session = record {
  created_at = 10;
  last_activity_at = 10;
  csrf_token = some "t";
  user_id = none;
  org_id = none;
  authenticated_at = none;
}

abbrev user_named : Option SessionRecord → Option String
user_named none = none
user_named (some r) = r.user_id

abbrev anonymous_store : SessionStore
anonymous_store = record {
  records = λ k. if same_text id_a k then some anonymous_session else none;
  user_index = λ user. [];
}

empty_store-Indexed : Indexed empty_store
empty_store-Indexed k r user e f = absurd (ground (arith, e))

-- The first identifier is gone, and the second names the session of the user.
rotates :
    ((requests visit_and_login empty_store).records id_a ≡ none)
    × (user_named ((requests visit_and_login empty_store).records id_b) ≡ some "u")
unfolding requests dispatch is_exempt member same_text starts_with resolve is_valid_session_id
    repeat_char matches_charset is_id_char get loaded identity_complete routed write_back proxy_of
    active_record delete put save register_for_user unregister_for_user set_index add_member discard
    login_ttl normal_ttl is_expired absolute_anchor
rotates = (refl, refl)

-- A login on top of a login keeps the identifier.
switches :
    user_named (
      (requests
          (request (some id_b) 30 id_a log_in_other ∷ [])
          (requests visit_and_login empty_store)).records
        id_b)
    ≡ some "v"
unfolding requests dispatch is_exempt member same_text starts_with resolve is_valid_session_id
    repeat_char matches_charset is_id_char get loaded identity_complete routed write_back proxy_of
    active_record delete put save register_for_user unregister_for_user set_index add_member discard
    login_ttl normal_ttl is_expired absolute_anchor
switches = refl

-- Forty-two characters and a newline are a valid identifier.
newline_passes : is_valid_session_id (repeat_char 42 0x61 ++ (0x0a ∷ [])) ≡ true
unfolding is_valid_session_id repeat_char matches_charset is_id_char
newline_passes = refl

resolve-Resolves_example :
    Resolves
      (request (some id_a) 20 id_b log_in)
      (requests (request none 10 id_a (λ view. view) ∷ []) empty_store)
      (resolve
        (request (some id_a) 20 id_b log_in)
        (requests (request none 10 id_a (λ view. view) ∷ []) empty_store))
resolve-Resolves_example =
    resolve-Resolves (request (some id_a) 20 id_b log_in)
      (requests (request none 10 id_a (λ view. view) ∷ []) empty_store)

requests_keep-Anonymous_example :
    Anonymous ((requests (request (some id_a) 20 id_b log_in ∷ []) anonymous_store).records id_a)
unfolding same_text repeat_char
requests_keep-Anonymous_example =
    requests_keep-Anonymous (request (some id_a) 20 id_b log_in ∷ []) anonymous_store id_a
      (refl, tt) refl

dispatch-Evolves_example :
    Evolves
      (request (some id_a) 20 id_b (λ view. view))
      (anonymous_store.records id_a)
      ((dispatch (request (some id_a) 20 id_b (λ view. view)) anonymous_store).1.records id_a)
unfolding same_text repeat_char
dispatch-Evolves_example =
    dispatch-Evolves (request (some id_a) 20 id_b (λ view. view)) anonymous_store id_a refl

session_ends_example : 40 ≤ absolute_anchor anonymous_session + 150
unfolding requests dispatch is_exempt member same_text starts_with resolve is_valid_session_id
    repeat_char matches_charset is_id_char get loaded identity_complete routed write_back proxy_of
    active_record delete put save register_for_user unregister_for_user set_index add_member discard
    login_ttl normal_ttl is_expired absolute_anchor
session_ends_example =
    session_ends (request (some id_a) 20 id_b (λ view. view) ∷ [])
      (request (some id_a) 40 id_b log_in) anonymous_store _ id_a anonymous_session
      (record anonymous_session { last_activity_at = 20 }) (refl, tt) refl refl

-- The session is revoked.
revokes : (revoke_all_for_user "u" (requests visit_and_login empty_store)).1.records id_b ≡ none
unfolding requests revoke_all_for_user dispatch is_exempt member same_text starts_with resolve
    is_valid_session_id repeat_char matches_charset is_id_char get loaded identity_complete routed
    write_back proxy_of active_record delete put save register_for_user unregister_for_user
    set_index add_member discard login_ttl normal_ttl is_expired absolute_anchor
revokes = refl

abbrev kept_anonymous : List RequestEnv
kept_anonymous = request none 10 id_a (λ view. view) ∷ []

requests-revoke_all_example : anonymous_session.user_id ≢ some "u"
unfolding requests dispatch is_exempt member same_text starts_with resolve is_valid_session_id
    repeat_char matches_charset is_id_char get loaded identity_complete routed write_back proxy_of
    active_record delete put save register_for_user unregister_for_user set_index add_member discard
    login_ttl normal_ttl is_expired absolute_anchor revoke_all_for_user
requests-revoke_all_example =
    requests-revoke_all kept_anonymous empty_store "u" (refl, tt) empty_store-Indexed id_a
      anonymous_session refl
