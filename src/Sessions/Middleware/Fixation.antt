-- ===== src/Sessions/Middleware/Fixation.antt =====
-- Session fixation (app/core/sessions/middleware.py).
use rfp.Prelude.{All, List, Option, Text, [], false, none, same_text, some, ◌∷◌, ◌≡◌}
use rfp.Sessions.{SessionRecord, SessionStore}
use rfp.Sessions.Middleware.{RequestEnv, dispatch}
use rfp.Sessions.Middleware.Evolution.{Evolves, gone, renewed, unchanged}
use rfp.Sessions.Middleware.Keeps.{dispatch-Evolves}

-- Requests one after the other.
unfoldable pub requests : List RequestEnv → SessionStore → SessionStore
requests [] store = store
requests (env ∷ envs) store = requests envs (dispatch env store).1

-- None of the requests makes this identifier.
abbrev pub NotMade : Text → List RequestEnv → Type 0
NotMade k envs = All (λ (env : RequestEnv). same_text env.new_session_id k ≡ false) envs

abbrev pub Anonymous : Option SessionRecord → Type 0
Anonymous none = Unit
Anonymous (some r) = r.user_id ≡ none

Evolves-Anonymous :
    (env : RequestEnv) (before after : Option SessionRecord)
    → Evolves env before after
    → Anonymous before
    → Anonymous after
Evolves-Anonymous env before _ gone h = tt
Evolves-Anonymous env before _ unchanged h = h
Evolves-Anonymous env _ _ (renewed live created anchored touched anonymous) h = anonymous h

-- An identifier that names no session of a user is never given to one, whatever requests come with it
-- and whatever calls of the store fail: a login makes a new identifier.
pub requests_keep-Anonymous :
    (envs : List RequestEnv) (store : SessionStore) (k : Text)
    → NotMade k envs
    → Anonymous (store.records k)
    → Anonymous ((requests envs store).records k)
unfolding requests
requests_keep-Anonymous [] store k made h = h
requests_keep-Anonymous (env ∷ envs) store k (fresh, made) h =
    requests_keep-Anonymous envs (dispatch env store).1 k made (
      Evolves-Anonymous env (store.records k) ((dispatch env store).1.records k)
        (dispatch-Evolves env store k fresh) h)
