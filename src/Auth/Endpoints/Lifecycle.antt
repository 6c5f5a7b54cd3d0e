-- ===== src/Auth/Endpoints/Lifecycle.antt =====
-- A refresh token from the grant that makes it to its revocation.
use oj_monorepo.Base.{
  ◌≡◌, refl, sym, ◌∙◌, ap, subst, inl, inr, not, String, str_eq, str_eq_iff, List, [], ◌∷◌, keep,
  find, any, All, Bool, true, false, Option, none, some, err, if_cases, Bool-cases, arith,
}
use oj_monorepo.Auth.Token.{TokenType, Claims, verify}
use oj_monorepo.Auth.Store.{RefreshToken, Db, Query, World, AppState, tokens_of, without_token}
use oj_monorepo.Auth.Endpoints.{
  HandlerError, TokenIntrospectionResponse, refresh_subject, stored, refresh_grant, revoked, revoke,
  is_live, introspected, introspect,
}

module _ (world : World) (state : AppState) where
  open world use {verify_hash, faulty}

  -- Every row that the token's hash is in has one id.
  abbrev pub HasOneRow : String → String → Db → Type 0
  HasOneRow token id db =
      All (λ (t : RefreshToken). verify_hash token t.token ≡ true → t.id ≡ id) db.refresh_tokens

  -- A row that is found verifies the token.
  found-verifies :
      (token user_id : String) (ts : List RefreshToken) (row : RefreshToken) (id : String)
      → find
          (λ (t : RefreshToken). verify_hash token t.token)
          (keep (λ (t : RefreshToken). str_eq t.user_id user_id) ts)
        ≡ some row
      → All (λ (t : RefreshToken). verify_hash token t.token ≡ true → t.id ≡ id) ts
      → row.id ≡ id
  found-verifies token user_id [] row id h a = absurd (cc)
  found-verifies token user_id (t ∷ ts) row id h a =
      let p : RefreshToken → Bool = λ (t : RefreshToken). verify_hash token t.token in
      let rest = keep (λ (t : RefreshToken). str_eq t.user_id user_id) ts in
      if_cases (λ (xs : List RefreshToken). find p xs ≡ some row → row.id ≡ id)
        (str_eq t.user_id user_id) (t ∷ rest) rest
        (λ _.
          if_cases (λ (o : Option RefreshToken). o ≡ some row → row.id ≡ id) (p t) (some t)
            (find p rest)
            (λ v q. let e : t ≡ row = cc in ap (λ (x : RefreshToken). x.id) (sym e) ∙ a.0 v)
            (λ _ q. found-verifies token user_id ts row id q a.1))
        (λ _ q. found-verifies token user_id ts row id q a.1) h

  -- Without the rows of the id, none is found.
  none-found :
      (token user_id : String) (ts : List RefreshToken) (id : String)
      → All (λ (t : RefreshToken). verify_hash token t.token ≡ true → t.id ≡ id) ts
      → find
          (λ (t : RefreshToken). verify_hash token t.token)
          (keep
            (λ (t : RefreshToken). str_eq t.user_id user_id)
            (keep (λ (t : RefreshToken). not (str_eq t.id id)) ts))
        ≡ none
  none-found token user_id [] id a = refl
  none-found token user_id (t ∷ ts) id a = elim (Bool-cases (verify_hash token t.token)) [
    | inl v ↦
        let e : str_eq t.id id ≡ true = (str_eq_iff t.id id).1 (a.0 v) in
        rw e (none-found token user_id ts id a.1)
    | inr v ↦ ground (
      arith,
      v,
      Bool-cases (str_eq t.id id),
      Bool-cases (str_eq t.user_id user_id),
      none-found token user_id ts id a.1,
    )
  ]

  find-none-any :
      (token : String) (ts : List RefreshToken)
      → find (λ (t : RefreshToken). verify_hash token t.token) ts ≡ none
      → any (λ (t : RefreshToken). verify_hash token t.token) ts ≡ false
  find-none-any token [] h = refl
  find-none-any token (t ∷ ts) h =
      ground (arith, Bool-cases (verify_hash token t.token), find-none-any token ts)

  revoked-none :
      (token user_id id : String) (db : Db)
      → faulty Query.delete_token ≡ false
      → HasOneRow token id db
      → stored world state token user_id
          (revoked world state (stored world state token user_id db) db)
        ≡ none
  unfolding stored revoked
  revoked-none token user_id id db f a = after-revoked (stored world state token user_id db) refl
    where
      after-revoked :
          (o : Option RefreshToken)
          → stored world state token user_id db ≡ o
          → stored world state token user_id (revoked world state o db) ≡ none
      after-revoked none e = e
      after-revoked (some row) e = rw f (
          subst (λ i. stored world state token user_id (without_token i db) ≡ none)
            (sym (found-verifies token user_id db.refresh_tokens row id e a))
            (none-found token user_id db.refresh_tokens id a))

  refused :
      (token : String) (db : Db)
      → faulty Query.tokens_of_user ≡ false
      → (o : Option (Claims × String)) → refresh_subject world state token ≡ o
      → ((s : Claims × String) → o ≡ some s → stored world state token s.1 db ≡ none)
      → refresh_grant world state token db ≡ err HandlerError.invalid_grant
  unfolding refresh_grant
  refused token db f none e h = rw e refl
  refused token db f (some s) e h = rw e (rw f (rw (h s refl, stored) refl))

  revoke-stored :
      (token id : String) (db : Db) (s : Claims × String)
      → faulty Query.tokens_of_user ≡ false
      → faulty Query.delete_token ≡ false
      → HasOneRow token id db
      → refresh_subject world state token ≡ some s
      → stored world state token s.1 (revoke world state token db) ≡ none
  unfolding revoke
  revoke-stored token id db s f g a e = rw (e, revoke) (rw f (revoked-none token s.1 id db g a))

  not_live :
      (token user_id : String) (db : Db)
      → stored world state token user_id db ≡ none
      → is_live world state TokenType.refresh token user_id db ≡ false
  unfolding is_live stored
  not_live token user_id db h =
      if_cases (λ b. b ≡ false) (faulty Query.tokens_of_user) false _ (λ _. refl)
        (λ _. find-none-any token (tokens_of user_id db) h)

  unnamed :
      (token : String) (o : Option String) (db : Db)
      → ((user_id : String) → o ≡ some user_id → stored world state token user_id db ≡ none)
      → introspected world state token TokenType.refresh o db ≡ TokenIntrospectionResponse.failed
  unfolding introspected
  unnamed token none db h = refl
  unnamed token (some user_id) db h = rw (not_live token user_id db (h user_id refl), is_live) refl

  inactive :
      (token : String) (o : Option Claims) (db : Db)
      → verify world.jwt token TokenType.refresh state.public_key_pem ≡ o
      → ((s : Claims × String)
          → refresh_subject world state token ≡ some s
          → stored world state token s.1 db ≡ none)
      → introspect world state token TokenType.refresh db ≡ TokenIntrospectionResponse.failed
  unfolding introspect refresh_subject
  inactive token none db e h = rw (e, introspect) refl
  inactive token (some claims) db e h =
      rw (e, introspect)
        (unnamed token (world.jwt.parse_uuid claims.sub) db
          (λ user_id k. h (claims, user_id) (rw (e, refresh_subject) (rw k refl))))

  -- After a refresh token is revoked, neither a grant nor the introspection accepts it any more,
  -- provided the database answers and the token's hash is in the rows of one id only.
  pub revoke-refuses :
      (token id : String) (db : Db)
      → faulty Query.tokens_of_user ≡ false
      → faulty Query.delete_token ≡ false
      → HasOneRow token id db
      → (refresh_grant world state token (revoke world state token db)
          ≡ err HandlerError.invalid_grant)
        × (introspect world state token TokenType.refresh (revoke world state token db)
            ≡ TokenIntrospectionResponse.failed)
  revoke-refuses token id db f g a = (
    refused token (revoke world state token db) f (refresh_subject world state token) refl
        (λ s e. revoke-stored token id db s f g a e),
    inactive token (verify world.jwt token TokenType.refresh state.public_key_pem)
        (revoke world state token db) refl (λ s e. revoke-stored token id db s f g a e),
  )
