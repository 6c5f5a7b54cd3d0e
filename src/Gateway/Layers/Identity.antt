-- ===== src/Gateway/Layers/Identity.antt =====
-- The user that an authenticated request speaks for.
use oj_monorepo.Base.{
  ◌≡◌, refl, sym, ap, ◌⊎◌, inl, inr, String, str_eq, str_eq_iff, List, [], ◌∷◌, true, false, Option,
  none, some, Result, ok, err, if◌then◌else◌, Bool-cases, subst, ok-inj, arith,
}
use oj_monorepo.Auth.Token.{Jwt}
use oj_monorepo.Gateway.Config.{AuthenticationLevel}
use oj_monorepo.Gateway.Jwks.{JwksCache}
use oj_monorepo.Shared.Headers.{HeaderValue, Headers, get, remove, insert}
use oj_monorepo.Gateway.Requests.{GatewayError, Request}
use oj_monorepo.Gateway.Layers.{verify_token, with_user, authenticate}

-- All the values of a name.
abbrev pub values : String → Headers → List HeaderValue
values name [] = []
values name ((n, v) ∷ rest) =
    let others = values name rest in if str_eq n name then v ∷ others else others

values-remove : (name : String) (headers : Headers) → values name (remove name headers) ≡ []
values-remove name [] = refl
values-remove name ((n, v) ∷ rest) =
    ground (arith, Bool-cases (str_eq n name), values-remove name rest)

values-insert :
    (name : String) (value : HeaderValue) (headers : Headers)
    → values name (insert name value headers) ≡ value ∷ []
values-insert name value headers =
    let e : str_eq name name ≡ true = (str_eq_iff name name).1 refl in
    rw e (ap (λ vs. value ∷ vs) (values-remove name headers))

values-remove_other :
    (name other : String) (headers : Headers)
    → str_eq other name ≡ false
    → values name (remove other headers) ≡ values name headers
values-remove_other name other [] h = refl
values-remove_other name other ((n, v) ∷ rest) h = elim (Bool-cases (str_eq n other)) [
  | inl e ↦
      let f : str_eq n name ≡ false =
        subst (λ m. str_eq m name ≡ false) (sym ((str_eq_iff n other).0 e)) h in
      ground (arith, e, f, values-remove_other name other rest h)
  | inr e ↦ ground (arith, e, Bool-cases (str_eq n name), values-remove_other name other rest h)
]

module _ (jwt : Jwt) (cache : Option JwksCache) where
  abbrev pub Authorizes : Request → String → Type 0
  Authorizes req user_id = verify_token jwt cache (get "authorization" req.headers) ≡ some user_id

  -- The request speaks for this user and for no other.
  abbrev pub SpeaksFor : String → Request → Type 0
  SpeaksFor user_id req = values "x-user-id" req.headers ≡ HeaderValue.text user_id ∷ []

  abbrev pub IsAuthenticated : AuthenticationLevel → Request → Request → Type 0
  IsAuthenticated AuthenticationLevel.required req out =
      (user_id : String) × Authorizes req user_id × SpeaksFor user_id out
  IsAuthenticated AuthenticationLevel.optional req out =
      ((user_id : String) × Authorizes req user_id × SpeaksFor user_id out)
      ⊎ ((verify_token jwt cache (get "authorization" req.headers) ≡ none) × (out ≡ req))
  IsAuthenticated AuthenticationLevel.open_to_all req out = out ≡ req
  IsAuthenticated AuthenticationLevel.bypass_and_strip req out =
      (values "authorization" out.headers ≡ [])
      × (values "x-user-id" out.headers ≡ values "x-user-id" req.headers)

  required-case :
      (o : Option String) (req out : Request)
      → (elim o [ none ↦ err GatewayError.auth_failed | some u ↦ ok (with_user jwt cache u req) ])
        ≡ ok out
      → (user_id : String) × (o ≡ some user_id) × SpeaksFor user_id out
  required-case none req out h = absurd (cc)
  required-case (some u) req out h = (
    u,
    refl,
    subst (λ (r : Request). SpeaksFor u r) (ok-inj (with_user jwt cache u req) out h)
        (values-insert "x-user-id" (HeaderValue.text u) req.headers),
  )

  optional-case :
      (o : Option String) (req out : Request)
      → Path
          (Result Request GatewayError)
          (elim o [ none ↦ ok req | some u ↦ ok (with_user jwt cache u req) ])
          (ok out)
      → ((user_id : String) × (o ≡ some user_id) × SpeaksFor user_id out)
        ⊎ ((o ≡ none) × (out ≡ req))
  optional-case none req out h = inr (refl, sym (ok-inj req out h))
  optional-case (some u) req out h = inl (
    u,
    refl,
    subst (λ (r : Request). SpeaksFor u r) (ok-inj (with_user jwt cache u req) out h)
        (values-insert "x-user-id" (HeaderValue.text u) req.headers),
  )

  -- What a request carries after the authentication layer, on every level. Where a token is
  -- required, the request goes on only with a verified one, and names its user in the only
  -- `x-user-id` header there is, whatever the client has sent. Where it is optional, it does the
  -- same with a verified token, and otherwise goes on as it came. Where none is asked for it goes
  -- on as it came; and where it is stripped, without any `authorization` header but with the
  -- client's own `x-user-id` headers.
  pub authenticate-IsAuthenticated :
      (level : AuthenticationLevel) (req out : Request)
      → authenticate jwt cache level req ≡ ok out
      → IsAuthenticated level req out
  unfolding authenticate
  authenticate-IsAuthenticated AuthenticationLevel.required req out h =
      required-case (verify_token jwt cache (get "authorization" req.headers)) req out h
  authenticate-IsAuthenticated AuthenticationLevel.optional req out h =
      optional-case (verify_token jwt cache (get "authorization" req.headers)) req out h
  authenticate-IsAuthenticated AuthenticationLevel.open_to_all req out h = sym (ok-inj req out h)
  authenticate-IsAuthenticated AuthenticationLevel.bypass_and_strip req out h =
      subst
        (λ (r : Request).
          (values "authorization" r.headers ≡ [])
          × (values "x-user-id" r.headers ≡ values "x-user-id" req.headers))
        (ok-inj (record req { headers = remove "authorization" req.headers }) out h)
        (
          values-remove "authorization" req.headers,
          values-remove_other "x-user-id" "authorization" req.headers refl,
        )
