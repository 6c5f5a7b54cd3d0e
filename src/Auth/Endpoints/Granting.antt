-- ===== src/Auth/Endpoints/Granting.antt =====
-- What the password grant does to the store.
use oj_monorepo.Base.{
  ℕ, ◌≡◌, refl, String, true, Option, none, some, Result, ok, err, if◌then◌else◌, if_cases,
}
use oj_monorepo.Auth.Store.{User, Db, Query, World, AppState, by_username, with_token}
use oj_monorepo.Auth.Endpoints.{
  HandlerError, TokenResponse, Issued, issue, token_row, store_token, issue_and_store,
  password_response, login, password_grant,
}

module _ (world : World) (state : AppState) where
  open world use {verify_hash, after, faulty}

  -- A row was added for this user, with what was issued.
  abbrev pub IsStored : String → Db → Db → Issued → Type 0
  IsStored user_id db db' i =
      (expired_at : ℕ) × (after state.refresh_token_ttl_secs ≡ some expired_at)
      × (issue world state user_id HandlerError.internal_error ≡ ok i)
      × (db' ≡ with_token (token_row world state user_id i.token_hash expired_at) db)

  abbrev pub StoreOutcome : String → Db → Option (Db × Result Issued HandlerError) → Type 0
  StoreOutcome user_id db none = after state.refresh_token_ttl_secs ≡ none
  StoreOutcome user_id db (some (db', err e)) = db' ≡ db
  StoreOutcome user_id db (some (db', ok i)) = IsStored user_id db db' i

  abbrev pub GrantOutcome :
      String → String → Db → Option (Db × Result TokenResponse HandlerError) → Type 0
  GrantOutcome username pass db none = after state.refresh_token_ttl_secs ≡ none
  GrantOutcome username pass db (some (db', err e)) = db' ≡ db
  GrantOutcome username pass db (some (db', ok r)) =
      (user : User) × (by_username username db ≡ some user)
      × (verify_hash pass user.password ≡ true)
      × ((i : Issued) × IsStored user.id db db' i
          × (r ≡ TokenResponse.password i.access_token state.access_token_ttl_secs i.refresh_token))

  stored-StoreOutcome :
      (user_id : String) (db : Db) (i : Issued) (o : Option ℕ)
      → after state.refresh_token_ttl_secs ≡ o
      → issue world state user_id HandlerError.internal_error ≡ ok i
      → StoreOutcome user_id db (elim o [
        | none ↦ none
        | some expired_at ↦
            if faulty Query.insert_token
            then some (db, err HandlerError.internal_error)
            else some (with_token (token_row world state user_id i.token_hash expired_at) db, ok i)
      ])
  stored-StoreOutcome user_id db i none e f = e
  stored-StoreOutcome user_id db i (some expired_at) e f =
      if_cases (StoreOutcome user_id db) (faulty Query.insert_token)
        (some (db, err HandlerError.internal_error))
        (some (with_token (token_row world state user_id i.token_hash expired_at) db, ok i))
        (λ _. refl) (λ _. (expired_at, e, f, refl))

  issued-StoreOutcome :
      (user_id : String) (db : Db) (r : Result Issued HandlerError)
      → issue world state user_id HandlerError.internal_error ≡ r
      → StoreOutcome user_id db (elim r [
        | err e' ↦ some (db, err e')
        | ok issued ↦ store_token world state user_id HandlerError.internal_error db issued
      ])
  unfolding store_token
  issued-StoreOutcome user_id db (err e') f = refl
  issued-StoreOutcome user_id db (ok i) f =
      stored-StoreOutcome user_id db i (after state.refresh_token_ttl_secs) refl f

  response-GrantOutcome :
      (username pass : String) (db : Db) (user : User)
      (o : Option (Db × Result Issued HandlerError))
      → by_username username db ≡ some user
      → verify_hash pass user.password ≡ true
      → StoreOutcome user.id db o
      → GrantOutcome username pass db (password_response world state o)
  unfolding password_response
  response-GrantOutcome username pass db user none e v s = s
  response-GrantOutcome username pass db user (some (db', err x)) e v s = s
  response-GrantOutcome username pass db user (some (db', ok i)) e v s = (user, e, v, (i, s, refl))

  login-GrantOutcome :
      (username pass : String) (db : Db) (o : Option User)
      → by_username username db ≡ o
      → GrantOutcome username pass db (login world state pass o db)
  unfolding login issue_and_store
  login-GrantOutcome username pass db none e = refl
  login-GrantOutcome username pass db (some user) e =
      if_cases (GrantOutcome username pass db) (verify_hash pass user.password)
        (password_response world state
          (issue_and_store world state user.id HandlerError.internal_error db))
        (some (db, err HandlerError.invalid_grant))
        (λ v. response-GrantOutcome username pass db user _ e v (
          issued-StoreOutcome user.id db (issue world state user.id HandlerError.internal_error)
            refl))
        (λ _. refl)

  -- The password grant, on every branch. It gives tokens only for a user of that name whose stored
  -- hash the password verifies, and then adds exactly one row, with that user and the hash of the
  -- refresh token it gives; with an error it leaves the database as it is; and it panics only where
  -- the time of expiry cannot be computed.
  pub password_grant-GrantOutcome :
      (username pass : String) (db : Db)
      → GrantOutcome username pass db (password_grant world state username pass db)
  unfolding password_grant
  password_grant-GrantOutcome username pass db =
      if_cases (GrantOutcome username pass db) (faulty Query.user_of_login)
        (some (db, err HandlerError.internal_error))
        (login world state pass (by_username username db) db) (λ _. refl)
        (λ _. login-GrantOutcome username pass db (by_username username db) refl)
