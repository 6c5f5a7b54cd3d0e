-- ===== src/Auth/Extractor.antt =====
-- services/crates/auth/src/extractor.rs: who a request speaks for, as a service sees it.
pub mod Trust
use oj_monorepo.Base.{
  ℕ, String, len, slice, starts_with, List, [], ◌∷◌, Bool, true, false, Option, none, some, Result,
  ok, err, and_then, if◌then◌else◌,
}
use oj_monorepo.Shared.Headers.{HeaderValue, Headers, get}
use oj_monorepo.Auth.Token.{TokenType, Claims, Jwt, verify}
use oj_monorepo.Auth.Store.{AppState}
use oj_monorepo.Auth.Endpoints.{or_fail}

pub data AuthError : Type 0 where
  state_not_configured : AuthError
  missing_header : AuthError
  invalid_header : AuthError
  invalid_token : AuthError
  bad_subject : AuthError

-- `From<AuthError> for StatusCode`.
unfoldable pub status_of : AuthError → ℕ
status_of AuthError.state_not_configured = 500
status_of AuthError.bad_subject = 500
status_of AuthError.missing_header = 401
status_of AuthError.invalid_header = 401
status_of AuthError.invalid_token = 401

-- The `error` parameter of the `WWW-Authenticate` header, where there is one.
unfoldable pub www_auth_error : AuthError → Option String
www_auth_error AuthError.state_not_configured = none
www_auth_error AuthError.bad_subject = none
www_auth_error AuthError.missing_header = some "invalid_token"
www_auth_error AuthError.invalid_header = some "invalid_token"
www_auth_error AuthError.invalid_token = some "invalid_token"

-- `and_then(|v| v.to_str().ok())`.
abbrev pub text_of : Option HeaderValue → Option String
text_of none = none
text_of (some HeaderValue.opaque) = none
text_of (some (HeaderValue.text s)) = some s

module _ (jwt : Jwt) where
  open jwt use {parse_uuid}

  -- `extract_x_user_id`; every error is the status 500.
  unfoldable pub extract_x_user_id : Option HeaderValue → Result String ℕ
  extract_x_user_id none = err 500
  extract_x_user_id (some HeaderValue.opaque) = err 500
  extract_x_user_id (some (HeaderValue.text s)) = or_fail (parse_uuid s) 500

  -- `UserId<Identity>`: an identity is its user id.
  unfoldable pub user_id : Headers → Result String ℕ
  unfolding extract_x_user_id
  user_id headers = extract_x_user_id (get "x-user-id" headers)

  optional_x_user_id : Option HeaderValue → Result (Option String) ℕ
  unfolding extract_x_user_id
  optional_x_user_id none = ok none
  optional_x_user_id (some val) = and_then (extract_x_user_id (some val)) (λ id. ok (some id))

  -- `UserId<Option<Identity>>`.
  unfoldable pub optional_user_id : Headers → Result (Option String) ℕ
  unfolding optional_x_user_id
  optional_user_id headers = optional_x_user_id (get "x-user-id" headers)

  bearer : String → Option String
  bearer header =
      if starts_with header "Bearer "
      then some (slice header (len "Bearer ") (len header))
      else none

  unfoldable pub verify_bearer : String → AppState → Result String AuthError
  unfolding bearer verify
  verify_bearer header state = and_then (or_fail (bearer header) AuthError.invalid_header) (λ token.
      and_then
        (or_fail (verify jwt token TokenType.access state.public_key_pem) AuthError.invalid_token)
        (λ claims. or_fail (parse_uuid claims.sub) AuthError.bad_subject))

  -- `get_auth_state`: the state is an extension of the request, which may be missing.
  abbrev get_auth_state : Option AppState → Result AppState AuthError
  get_auth_state state = or_fail state AuthError.state_not_configured

  -- `Auth<Identity>`.
  unfoldable pub auth : Option AppState → Headers → Result String AuthError
  unfolding verify_bearer
  auth state headers = and_then (get_auth_state state) (λ s.
      and_then (or_fail (text_of (get "authorization" headers)) AuthError.missing_header)
        (λ header. verify_bearer header s))

  optional_bearer : Option String → AppState → Result (Option String) AuthError
  unfolding verify_bearer
  optional_bearer none state = ok none
  optional_bearer (some header) state = and_then (verify_bearer header state) (λ id. ok (some id))

  -- `Auth<Option<Identity>>`.
  unfoldable pub optional_auth : Option AppState → Headers → Result (Option String) AuthError
  unfolding optional_bearer
  optional_auth state headers =
      and_then (get_auth_state state)
        (λ s. optional_bearer (text_of (get "authorization" headers)) s)
