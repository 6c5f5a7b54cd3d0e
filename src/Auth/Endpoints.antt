-- ===== src/Auth/Endpoints.antt =====
-- services/crates/auth/src/router.rs: the endpoints for tokens.
pub mod Lifecycle
pub mod Granting
mod Tests
use oj_monorepo.Base.{
  ℕ, ltb, String, List, [], ◌∷◌, find, any, Bool, true, false, Option, none, some, Result, ok, err,
  and_then, if◌then◌else◌,
}
use oj_monorepo.Auth.Token.{TokenType, Claims, generate, verify}
use oj_monorepo.Auth.Store.{
  User, RefreshToken, Db, Query, World, AppState, by_username, by_id, tokens_of, without_token,
  with_token,
}

-- `HandlerError`: a status with its body.
pub data HandlerError : Type 0 where
  invalid_grant : HandlerError
  internal_error : HandlerError

pub data TokenRequest : Type 0 where
  password : (username password : String) → TokenRequest
  refresh_token : (refresh_token : String) → TokenRequest

pub data TokenResponse : Type 0 where
  password : (access_token : String) (expires_in : ℕ) (refresh_token : String) → TokenResponse
  refresh : (access_token : String) (expires_in : ℕ) → TokenResponse

pub data TokenIntrospectionResponse : Type 0 where
  successful : (username : String) (token_type : TokenType) → TokenIntrospectionResponse
  failed : TokenIntrospectionResponse

-- `ok_or_else` and `map_err`.
abbrev pub or_fail {ℓ κ} : {A : Type ℓ} {E : Type κ} → Option A → E → Result A E
or_fail none e = err e
or_fail (some a) e = ok a

-- What a grant hands out, and the hash of the refresh token that is stored.
pub record Issued : Type 0 where
  pub access_token : String
  pub refresh_token : String
  pub token_hash : String

module _ (world : World) (state : AppState) where
  open world use {jwt, hash, verify_hash, now, after, new_id, faulty}

  -- The three steps from the access token to the hash, with the error that each of them gives.
  unfoldable pub issue {κ} : {E : Type κ} → String → E → Result Issued E
  unfolding generate
  issue sub e =
      and_then
        (or_fail
          (generate jwt sub TokenType.access state.private_key_pem state.access_token_ttl_secs now)
          e)
        (λ a.
          and_then
            (or_fail
              (generate jwt sub TokenType.refresh state.private_key_pem state.refresh_token_ttl_secs
                now)
              e)
            (λ r.
              and_then (or_fail (hash r) e)
                (λ h. ok (record { access_token = a; refresh_token = r; token_hash = h }))))

  abbrev pub token_row : String → String → ℕ → RefreshToken
  token_row user_id token_hash expired_at = record {
    id = new_id;
    user_id = user_id;
    token = token_hash;
    created_at = now;
    expired_at = expired_at;
  }

  -- The insertion of the row, for the user `user_id`.
  unfoldable pub store_token {κ} :
      {E : Type κ} → String → E → Db → Issued → Option (Db × Result Issued E)
  store_token user_id e db issued = elim (after state.refresh_token_ttl_secs) [
    | none ↦ none
    | some expired_at ↦
        if faulty Query.insert_token
        then some (db, err e)
        else some (with_token (token_row user_id issued.token_hash expired_at) db, ok issued)
  ]

  unfoldable pub issue_and_store {κ} :
      {E : Type κ} → String → E → Db → Option (Db × Result Issued E)
  unfolding issue store_token
  issue_and_store user_id e db = elim (issue user_id e) [
    | err e' ↦ some (db, err e')
    | ok issued ↦ store_token user_id e db issued
  ]

  unfoldable pub password_response :
      Option (Db × Result Issued HandlerError) → Option (Db × Result TokenResponse HandlerError)
  password_response none = none
  password_response (some (db, err e)) = some (db, err e)
  password_response (some (db, ok i)) =
      some
        (db, ok (TokenResponse.password i.access_token state.access_token_ttl_secs i.refresh_token))

  unfoldable pub login : String → Option User → Db → Option (Db × Result TokenResponse HandlerError)
  unfolding issue_and_store password_response
  login pass none db = some (db, err HandlerError.invalid_grant)
  login pass (some user) db =
      if verify_hash pass user.password
      then password_response (issue_and_store user.id HandlerError.internal_error db)
      else some (db, err HandlerError.invalid_grant)

  -- `token_handler`, the password grant; the outer `none` is a panic.
  unfoldable pub password_grant :
      String → String → Db → Option (Db × Result TokenResponse HandlerError)
  unfolding login
  password_grant username pass db =
      if faulty Query.user_of_login
      then some (db, err HandlerError.internal_error)
      else login pass (by_username username db) db

  -- The user that a verified refresh token names.
  unfoldable pub refresh_subject : String → Option (Claims × String)
  unfolding verify
  refresh_subject token = elim (verify jwt token TokenType.refresh state.public_key_pem) [
    | none ↦ none
    | some claims ↦ elim (jwt.parse_uuid claims.sub) [
      | none ↦ none
      | some user_id ↦ some (claims, user_id)
    ]
  ]

  -- The row of a token among those of its user.
  unfoldable pub stored : String → String → Db → Option RefreshToken
  stored token user_id db =
      find (λ (t : RefreshToken). verify_hash token t.token) (tokens_of user_id db)

  unfoldable pub refreshed : String → RefreshToken → Result TokenResponse HandlerError
  unfolding generate
  refreshed sub row =
      if ltb row.expired_at now
      then err HandlerError.invalid_grant
      else and_then
          (or_fail
            (generate jwt sub TokenType.access state.private_key_pem state.access_token_ttl_secs
              now)
            HandlerError.internal_error)
          (λ a. ok (TokenResponse.refresh a state.access_token_ttl_secs))

  -- `token_handler`, the refresh grant: the database is only read.
  unfoldable pub refresh_grant : String → Db → Result TokenResponse HandlerError
  unfolding refresh_subject stored refreshed
  refresh_grant token db =
      and_then (or_fail (refresh_subject token) HandlerError.invalid_grant) (λ s.
        if faulty Query.tokens_of_user
        then err HandlerError.internal_error
        else and_then (or_fail (stored token s.1 db) HandlerError.invalid_grant)
            (λ row. refreshed (s.0).sub row))

  unfoldable pub token_handler : TokenRequest → Db → Option (Db × Result TokenResponse HandlerError)
  unfolding password_grant refresh_grant
  token_handler (TokenRequest.password username pass) db = password_grant username pass db
  token_handler (TokenRequest.refresh_token token) db = some (db, refresh_grant token db)

  unfoldable pub revoked : Option RefreshToken → Db → Db
  revoked none db = db
  revoked (some row) db = if faulty Query.delete_token then db else without_token row.id db

  -- `revoke_handler` answers 200 always; what it leaves is the database.
  unfoldable pub revoke : String → Db → Db
  unfolding refresh_subject stored revoked
  revoke token db = elim (refresh_subject token) [
    | none ↦ db
    | some s ↦ if faulty Query.tokens_of_user then db else revoked (stored token s.1 db) db
  ]

  -- Whether a refresh token is in the store; an access token is not looked for.
  unfoldable pub is_live : TokenType → String → String → Db → Bool
  is_live TokenType.access token user_id db = true
  is_live TokenType.refresh token user_id db =
      if faulty Query.tokens_of_user
      then false
      else any (λ (t : RefreshToken). verify_hash token t.token) (tokens_of user_id db)

  unfoldable pub named : TokenType → Option User → TokenIntrospectionResponse
  named hint none = TokenIntrospectionResponse.failed
  named hint (some user) = TokenIntrospectionResponse.successful user.username hint

  unfoldable pub introspected : String → TokenType → Option String → Db → TokenIntrospectionResponse
  unfolding is_live named
  introspected token hint none db = TokenIntrospectionResponse.failed
  introspected token hint (some user_id) db =
      if is_live hint token user_id db
      then if faulty Query.user_of_token
        then TokenIntrospectionResponse.failed
        else named hint (by_id user_id db)
      else TokenIntrospectionResponse.failed

  -- `introspect_handler`.
  unfoldable pub introspect : String → TokenType → Db → TokenIntrospectionResponse
  unfolding verify introspected
  introspect token hint db = elim (verify jwt token hint state.public_key_pem) [
    | none ↦ TokenIntrospectionResponse.failed
    | some claims ↦ introspected token hint (jwt.parse_uuid claims.sub) db
  ]
