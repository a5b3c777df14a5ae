-- ===== src/Guards/Csrf.antt =====
-- app/core/csrf.py: the token that guards mutating requests.
use mathlib.Core.Option.{some-injective}
use rfp.Evidence.{contains}
use rfp.Extraction.World.{is_empty}
use rfp.Prelude.{
  Bool, Option, String, Text, any_char, ap, arith, false, if_both, if◌then◌else◌, inl, inr, ltb,
  none, not, refl, same_text, same_text_iff, some, str_eq, sym, true, ◌&&◌, ◌||◌, ◌∙◌, ◌≡◌, ◌⊎◌,
}

-- What a request carries. `submitted_form` is the string under `csrf_token` in its form, if the content
-- type says that there is one and it can be read; `bypassed` is the exception for the test suite.
pub record CsrfRequest : Type 0 where
  pub method : String
  pub bypassed : Bool
  pub session_token : Option Text
  pub header_token : Option Text
  pub content_type : Text
  pub form_token : Option Text

-- What is awaited: nothing happens, a 403, or the TypeError of compare_digest on a text that is not ASCII.
pub data CsrfResult : Type 0 where
  csrf_passed csrf_forbidden csrf_type_error : CsrfResult

unfoldable pub generate_csrf_token : Text → Option Text → Text × Option Text
generate_csrf_token fresh none = (fresh, some fresh)
generate_csrf_token fresh (some token) = (token, some token)

abbrev pub is_safe_method : String → Bool
is_safe_method method = str_eq method "GET" || str_eq method "HEAD" || str_eq method "OPTIONS"

-- "application/x-www-form-urlencoded" and "multipart/form-data"
pub record FormTypes : Type 0 where
  pub urlencoded : Text
  pub multipart : Text

form_or_none : FormTypes → Text → Option Text → Option Text
form_or_none types content_type form =
    if contains types.urlencoded content_type || contains types.multipart content_type
    then form
    else none

-- The header comes first, and the form is only read without one.
unfoldable pub submitted : FormTypes → CsrfRequest → Option Text → Option Text
unfolding form_or_none
submitted types request none = form_or_none types request.content_type request.form_token
submitted types request (some token) = some token

abbrev pub is_ascii : Text → Bool
is_ascii cs = not (any_char (λ c. ltb 0x7f c) cs)

-- `secrets.compare_digest`
compared : Text → Text → CsrfResult
compared a b =
    if not (is_ascii a && is_ascii b)
    then csrf_type_error
    else if same_text a b
    then csrf_passed
    else csrf_forbidden

with_submitted : Text → Option Text → CsrfResult
unfolding compared
with_submitted session none = csrf_forbidden
with_submitted session (some token) =
    if is_empty token then csrf_forbidden else compared session token

with_session : FormTypes → CsrfRequest → Option Text → CsrfResult
unfolding with_submitted
with_session types request none = csrf_forbidden
with_session types request (some session) =
    if is_empty session
    then csrf_forbidden
    else with_submitted session (submitted types request request.header_token)

unfoldable pub validate_csrf_token : FormTypes → CsrfRequest → CsrfResult
unfolding with_session
validate_csrf_token types request =
    if is_safe_method request.method
    then csrf_passed
    else if request.bypassed
    then csrf_passed
    else with_session types request request.session_token

-- The content type names one of the two kinds of form.
abbrev pub HasForm : FormTypes → Text → Type 0
HasForm types content_type =
    (contains types.urlencoded content_type ≡ true) ⊎ (contains types.multipart content_type ≡ true)

-- A request sends a token in its header or, without that header, in its form.
abbrev pub Sends : FormTypes → CsrfRequest → Text → Type 0
Sends types request token =
    (request.header_token ≡ some token)
    ⊎ ((request.header_token ≡ none)
        × HasForm types request.content_type
        × (request.form_token ≡ some token))

-- The request sends the token of its session.
pub record TokenSent (types : FormTypes) (request : CsrfRequest) : Type 0 where
  pub token : Text
  pub in_session : request.session_token ≡ some token
  pub in_request : Sends types request token
  pub not_empty : is_empty token ≡ false

form_or_none-Sends :
    (types : FormTypes) (content_type : Text) (form : Option Text) (token : Text)
    → form_or_none types content_type form ≡ some token
    → HasForm types content_type × (form ≡ some token)
unfolding form_or_none
form_or_none-Sends types content_type form token =
    if_both (λ o. o ≡ some token → HasForm types content_type × (form ≡ some token))
      (contains types.urlencoded content_type || contains types.multipart content_type) _ _
      (λ e. λ h. (either (contains types.urlencoded content_type) _ e, h))
      (λ _. λ h. absurd (ground (arith, h)))
  where
    either : (a b : Bool) → (a || b) ≡ true → (a ≡ true) ⊎ (b ≡ true)
    either true b e = inl refl
    either false b e = inr e

form_sent :
    (types : FormTypes) (content_type : Text) (form : Option Text) (token : Text)
    → HasForm types content_type
    → form ≡ some token
    → form_or_none types content_type form ≡ some token
unfolding form_or_none
form_sent types content_type form token (inl e) h = rw e h
form_sent types content_type form token (inr e) h =
    if_both (λ o. o ≡ some token)
      (contains types.urlencoded content_type || contains types.multipart content_type) _ _ (λ _. h)
      (λ n. absurd (ground (arith, n, e)))

submitted-Sends :
    (types : FormTypes) (request : CsrfRequest) (token : Text) (o : Option Text)
    → request.header_token ≡ o
    → submitted types request o ≡ some token
    → Sends types request token
unfolding submitted
submitted-Sends types request token none n e =
    let f = form_or_none-Sends types request.content_type request.form_token token e in
    inr (n, f.0, f.1)
submitted-Sends types request token (some t) n e = inl (n ∙ e)

Sends-submitted :
    (types : FormTypes) (request : CsrfRequest) (token : Text)
    → Sends types request token
    → submitted types request request.header_token ≡ some token
unfolding submitted
Sends-submitted types request token (inl h) = rw h refl
Sends-submitted types request token (inr (n, f, h)) =
    rw n (form_sent types request.content_type request.form_token token f h)

abbrev pub Judges : FormTypes → CsrfRequest → CsrfResult → Type 0
Judges types request csrf_passed =
    (is_safe_method request.method ≡ true) ⊎ ((request.bypassed ≡ true) ⊎ TokenSent types request)
Judges types request csrf_forbidden = ¬ TokenSent types request
Judges types request csrf_type_error =
    (session : Text) × (token : Text) × (request.session_token ≡ some session)
    × Sends types request token
    × ((is_ascii session && is_ascii token) ≡ false)

module _ (types : FormTypes) (request : CsrfRequest) where
  differs :
      (session token : Text)
      → request.session_token ≡ some session
      → submitted types request request.header_token ≡ some token
      → same_text session token ≡ false
      → ¬ TokenSent types request
  differs session token s h e sent =
      let is_session : session ≡ sent.token = some-injective _ _ (sym s ∙ sent.in_session) in
      let is_token : sent.token ≡ token =
        some-injective _ _ (sym (Sends-submitted types request _ sent.in_request) ∙ h) in
      ground (arith, e, (same_text_iff session token).1 (is_session ∙ is_token))

  empty_sent :
      (token : Text)
      → submitted types request request.header_token ≡ some token
      → is_empty token ≡ true
      → ¬ TokenSent types request
  empty_sent token h e sent =
      let is_token : sent.token ≡ token =
        some-injective _ _ (sym (Sends-submitted types request _ sent.in_request) ∙ h) in
      ground (arith, e, sent.not_empty, ap (λ (x : Text). is_empty x) is_token)

  empty_session :
      (session : Text)
      → request.session_token ≡ some session
      → is_empty session ≡ true
      → ¬ TokenSent types request
  empty_session session s e sent =
      let is_session : session ≡ sent.token = some-injective _ _ (sym s ∙ sent.in_session) in
      ground (arith, e, sent.not_empty, ap (λ (x : Text). is_empty x) is_session)

  compared-Judges :
      (session token : Text)
      → request.session_token ≡ some session
      → submitted types request request.header_token ≡ some token
      → is_empty token ≡ false
      → Judges types request (compared session token)
  unfolding compared
  compared-Judges session token s h ne =
      if_both (Judges types request) (not (is_ascii session && is_ascii token)) _ _
        (λ e. (session, token, s, submitted-Sends types request token _ refl h, ground (arith, e)))
        (λ _.
          if_both (Judges types request) (same_text session token) _ _
            (λ e. inr (
              inr (record {
                token = token;
                in_session = s ∙ ap some ((same_text_iff session token).0 e);
                in_request = submitted-Sends types request token _ refl h;
                not_empty = ne;
              })))
            (λ e. λ sent. differs session token s h e sent))

  with_submitted-Judges :
      (session : Text)
      → request.session_token ≡ some session
      → (o : Option Text) → submitted types request request.header_token ≡ o
      → Judges types request (with_submitted session o)
  unfolding with_submitted
  with_submitted-Judges session s none h =
      λ sent. ground (arith, h, Sends-submitted types request _ sent.in_request)
  with_submitted-Judges session s (some token) h =
      if_both (Judges types request) (is_empty token) _ _ (λ e. λ sent. empty_sent token h e sent)
        (λ e. compared-Judges session token s h e)

  with_session-Judges :
      (o : Option Text)
      → request.session_token ≡ o
      → Judges types request (with_session types request o)
  unfolding with_session
  with_session-Judges none s = λ sent. ground (arith, s, sent.in_session)
  with_session-Judges (some session) s =
      if_both (Judges types request) (is_empty session) _ _
        (λ e. λ sent. empty_session session s e sent) (λ _. with_submitted-Judges session s _ refl)

  -- A request passes the CSRF check only if its method is safe, or the exception for the test suite
  -- holds, or it sends the non-empty token of its session, in the header or, without one, in its form;
  -- a request that sends that token is never refused with a 403; and the third outcome, an error
  -- of the comparison, needs a token that is not ASCII.
  pub validate_csrf_token-Judges : Judges types request (validate_csrf_token types request)
  unfolding validate_csrf_token
  validate_csrf_token-Judges =
      if_both (Judges types request) (is_safe_method request.method) _ _ (λ e. inl e)
        (λ _.
          if_both (Judges types request) request.bypassed _ _ (λ e. inr (inl e))
            (λ _. with_session-Judges _ refl))
