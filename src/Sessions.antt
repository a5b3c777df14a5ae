-- ===== src/Sessions.antt =====
-- app/core/sessions: the server-side sessions. Here are the records and identifiers of models.py and
-- the in-memory store of store.py. A session identifier is its text; a user identifier a string.
pub mod Middleware
use rfp.Extraction.World.{is_empty}
use rfp.Prelude.{
  Bool, List, Option, String, Text, [], false, if◌then◌else◌, is_some, leb, length, member, none,
  same_text, some, str_eq, true, ℕ, ◌&&◌, ◌+◌, ◌==◌, ◌||◌, ◌∷◌,
}

-- The version, a constant of every record, is left out.
pub record SessionRecord : Type 0 where
  pub created_at : ℕ
  pub last_activity_at : ℕ
  pub csrf_token : Option String
  pub user_id : Option String
  pub org_id : Option String
  pub authenticated_at : Option ℕ

abbrev pub is_authenticated : SessionRecord → Bool
is_authenticated record_ = is_some record_.user_id

-- _validate_authenticated_fields
unfoldable pub identity_complete : Option String → Option String → Option ℕ → Bool
identity_complete none none none = true
identity_complete (some u) (some o) (some t) = true
identity_complete _ _ _ = false

-- `to_json` and then `from_json`; `fits` says whether the JSON is at most MAX_SESSION_RECORD_BYTES long.
-- A record that fails is no session.
unfoldable pub loaded : (SessionRecord → Bool) → SessionRecord → Option SessionRecord
loaded fits r =
    if fits r && identity_complete r.user_id r.org_id r.authenticated_at then some r else none

abbrev pub session_id_length : ℕ
session_id_length = 43

-- `[A-Za-z0-9_-]`
unfoldable pub is_id_char : ℕ → Bool
is_id_char c =
    (leb 0x41 c && leb c 0x5a)
    || (leb 0x61 c && leb c 0x7a)
    || (leb 0x30 c && leb c 0x39)
    || (c == 0x5f)
    || (c == 0x2d)

-- `^[A-Za-z0-9_-]+$` with `re.match`, whose `$` also stands before a newline at the end.
unfoldable pub matches_charset : Text → Bool
matches_charset [] = false
matches_charset (c ∷ []) = is_id_char c
matches_charset (c ∷ d ∷ cs) =
    is_id_char c && (matches_charset (d ∷ cs) || ((d == 0x0a) && is_empty cs))

unfoldable pub is_valid_session_id : Text → Bool
is_valid_session_id candidate = (length candidate == session_id_length) && matches_charset candidate

-- `_records` and `_user_index`; a set is the list of its elements.
pub record SessionStore : Type 0 where
  pub records : Text → Option SessionRecord
  pub user_index : String → List Text

unfoldable pub put :
    Text → Option SessionRecord → (Text → Option SessionRecord) → Text → Option SessionRecord
put session_id entry records other_id =
    if same_text session_id other_id then entry else records other_id

unfoldable pub set_index : String → List Text → (String → List Text) → String → List Text
set_index user_id members index other_user =
    if str_eq user_id other_user then members else index other_user

unfoldable pub delete : Text → SessionStore → SessionStore
delete session_id store = record store { records = put session_id none store.records }

unfoldable pub save : Text → SessionRecord → ℕ → SessionStore → SessionStore
save session_id r ttl_seconds store =
    if leb ttl_seconds 0
    then delete session_id store
    else record store { records = put session_id (some r) store.records }

-- `get`: what was loaded, and the store without a record that could not be.
keep_loaded : Text → SessionStore → Option SessionRecord → Option SessionRecord × SessionStore
keep_loaded session_id store none = (none, delete session_id store)
keep_loaded session_id store (some r) = (some r, store)

got :
    (SessionRecord → Bool)
    → Text
    → SessionStore
    → Option SessionRecord
    → Option SessionRecord × SessionStore
unfolding keep_loaded
got fits session_id store none = (none, store)
got fits session_id store (some r) = keep_loaded session_id store (loaded fits r)

unfoldable pub get :
    (SessionRecord → Bool) → Text → SessionStore → Option SessionRecord × SessionStore
unfolding got
get fits session_id store = got fits session_id store (store.records session_id)

unfoldable pub add_member : Text → List Text → List Text
add_member session_id members = if member session_id members then members else session_id ∷ members

unfoldable pub discard : Text → List Text → List Text
discard session_id [] = []
discard session_id (m ∷ ms) =
    let rest = discard session_id ms in if same_text session_id m then rest else m ∷ rest

unfoldable pub register_for_user : String → Text → SessionStore → SessionStore
register_for_user user_id session_id store = record store {
  user_index =
      set_index user_id (add_member session_id (store.user_index user_id)) store.user_index;
}

unfoldable pub unregister_for_user : String → Text → SessionStore → SessionStore
unregister_for_user user_id session_id store = record store {
  user_index = set_index user_id (discard session_id (store.user_index user_id)) store.user_index;
}

count_if : Bool → ℕ → ℕ
count_if true n = n + 1
count_if false n = n

-- The loop of `revoke_all_for_user` over the members.
pop_all : List Text → (Text → Option SessionRecord) → (Text → Option SessionRecord) × ℕ
unfolding count_if
pop_all [] records = (records, 0)
pop_all (m ∷ ms) records =
    let rest = pop_all ms (put m none records) in (rest.0, count_if (is_some (records m)) rest.1)

unfoldable pub revoke_all_for_user : String → SessionStore → ℕ × SessionStore
unfolding pop_all
revoke_all_for_user user_id store =
    let popped = pop_all (store.user_index user_id) store.records in
    (popped.1, record { records = popped.0; user_index = set_index user_id [] store.user_index })

unfoldable pub count_for_user : String → SessionStore → ℕ
count_for_user user_id store = length (store.user_index user_id)
