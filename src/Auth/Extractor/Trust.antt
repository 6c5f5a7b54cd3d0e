-- ===== src/Auth/Extractor/Trust.antt =====
-- The identity that a service takes from a request is one that a token has proved.
use oj_monorepo.Base.{◌≡◌, ap, subst, String, Option, none, some, Result, ok, err, found-ok, ok-inj}
use oj_monorepo.Shared.Headers.{HeaderValue, get}
use oj_monorepo.Auth.Token.{Claims, Jwt}
use oj_monorepo.Auth.Endpoints.{or_fail}
use oj_monorepo.Auth.Extractor.{user_id, extract_x_user_id}
use oj_monorepo.Gateway.Config.{AuthenticationLevel}
use oj_monorepo.Gateway.Jwks.{JwksCache, verify as verify_cached}
use oj_monorepo.Gateway.Requests.{GatewayError, Request}
use oj_monorepo.Gateway.Layers.{bearer, subject_of, verify_token, with_user, authenticate}

-- A uuid that has been printed is read again as itself.
abbrev pub ReadsPrinted : Jwt → Type 0
ReadsPrinted jwt = (s u : String) → jwt.parse_uuid s ≡ some u → jwt.parse_uuid u ≡ some u

module _ (jwt : Jwt) (cache : Option JwksCache) where
  subject_of-parsed :
      (token u : String)
      → subject_of jwt cache token ≡ some u
      → (s : String) × (jwt.parse_uuid s ≡ some u)
  unfolding subject_of
  subject_of-parsed token u h = reads (verify_cached jwt cache token) h
    where
      reads :
          {E : Type 0} (r : Result Claims E)
          → (elim r [ err e ↦ none | ok claims ↦ jwt.parse_uuid claims.sub ]) ≡ some u
          → (s : String) × (jwt.parse_uuid s ≡ some u)
      reads (err e) k = absurd (cc)
      reads (ok claims) k = (claims.sub, k)

  verify_token-parsed :
      (header : Option HeaderValue) (u : String)
      → verify_token jwt cache header ≡ some u
      → (s : String) × (jwt.parse_uuid s ≡ some u)
  unfolding verify_token
  verify_token-parsed none u h = absurd (cc)
  verify_token-parsed (some HeaderValue.opaque) u h = absurd (cc)
  verify_token-parsed (some (HeaderValue.text header)) u h = found (bearer jwt cache header) h
    where
      found :
          (o : Option String)
          → (elim o [ none ↦ none | some token ↦ subject_of jwt cache token ]) ≡ some u
          → (s : String) × (jwt.parse_uuid s ≡ some u)
      found none k = absurd (cc)
      found (some token) k = subject_of-parsed token u k

  user_id-with_user :
      (u : String) (req : Request)
      → jwt.parse_uuid u ≡ some u
      → user_id jwt (with_user jwt cache u req).headers ≡ ok u
  unfolding user_id extract_x_user_id
  user_id-with_user u req h = ap (λ o. or_fail o 500) h

  -- Behind a route that requires a token, the service takes the request for the user whose token
  -- the gateway has verified, whatever `x-user-id` headers the client has sent; provided a printed
  -- uuid is read as itself.
  pub user_id-authenticate :
      (req out : Request)
      → ReadsPrinted jwt
      → authenticate jwt cache AuthenticationLevel.required req ≡ ok out
      → (u : String) × (verify_token jwt cache (get "authorization" req.headers) ≡ some u)
        × (user_id jwt out.headers ≡ ok u)
  unfolding authenticate
  user_id-authenticate req out law h =
      let (u, e, f) =
        found-ok (verify_token jwt cache (get "authorization" req.headers)) GatewayError.auth_failed
          (λ u. ok (with_user jwt cache u req)) out h in
      let (s, k) = verify_token-parsed (get "authorization" req.headers) u e in
      (
        u,
        e,
        subst (λ (r : Request). user_id jwt r.headers ≡ ok u)
            (ok-inj (with_user jwt cache u req) out f) (user_id-with_user u req (law s u k)),
      )
