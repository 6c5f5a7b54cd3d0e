-- ===== src/Gateway/Jwks/Verified.antt =====
-- What a verified token is.
use oj_monorepo.Base.{
  ◌≡◌, refl, String, str_eq, [], ◌∷◌, Option, none, some, ok, and_then-ok, found-ok, ok-inj, true,
  if_cases, inl, inr, ◌⊎◌, ◌∙◌, ap,
}
use oj_monorepo.Auth.Token.{
  TokenType, Claims, Jwt, same_type, of_type, of_type-some, verify_with_raw_key,
}
use oj_monorepo.Gateway.Jwks.{JwksError, JwksCache, get_key, lookup_key, key_for, with_key, verify}

-- A key is in the cache, under some id.
abbrev pub Holds : JwksCache → String → Type 0
Holds [] raw = ⊥
Holds ((k, r) ∷ rest) raw = (r ≡ raw) ⊎ Holds rest raw

get_key-Holds :
    (kid raw : String) (cache : JwksCache) → get_key kid cache ≡ some raw → Holds cache raw
unfolding get_key
get_key-Holds kid raw [] h = absurd (cc)
get_key-Holds kid raw ((k, r) ∷ rest) h =
    if_cases (λ (o : Option String). o ≡ some raw → (r ≡ raw) ⊎ Holds rest raw) (str_eq k kid)
      (some r) (get_key kid rest) (λ e f. inl (cc)) (λ e f. inr (get_key-Holds kid raw rest f)) h

lookup_key-Holds :
    (cache : JwksCache) (kid : Option String) (raw : String)
    → lookup_key cache kid ≡ ok raw
    → Holds cache raw
unfolding lookup_key
lookup_key-Holds cache (some kid) raw h =
    let (r, e, f) = found-ok (get_key kid cache) (JwksError.unknown_kid kid) (λ r. ok r) raw h in
    get_key-Holds kid raw cache (e ∙ ap some (ok-inj r raw f))
lookup_key-Holds [] none raw h = absurd (cc)
lookup_key-Holds ((k, r) ∷ []) none raw h = inl (cc)
lookup_key-Holds (x ∷ (y ∷ rest)) none raw h = absurd (cc)

key_for-Holds :
    (jwt : Jwt) (cache : Option JwksCache) (kid : Option String) (raw : String)
    → key_for jwt cache kid ≡ ok raw
    → (keys : JwksCache) × (cache ≡ some keys) × Holds keys raw
unfolding key_for
key_for-Holds jwt none kid raw h = absurd (cc)
key_for-Holds jwt (some keys) kid raw h = (keys, refl, lookup_key-Holds keys kid raw h)

same_type-access :
    (typ : TokenType) → same_type typ TokenType.access ≡ true → typ ≡ TokenType.access
same_type-access TokenType.access h = refl
same_type-access TokenType.refresh h = absurd (cc)

with_key-decodes :
    (jwt : Jwt) (token raw : String) (claims : Claims)
    → with_key jwt token raw ≡ ok claims
    → (claims.typ ≡ TokenType.access)
      × ((der : String) × (jwt.raw_to_der raw ≡ some der)
          × (jwt.decode_der token der ≡ some claims))
unfolding with_key verify_with_raw_key
with_key-decodes jwt token raw claims h =
    let (c, e, f) =
      found-ok (verify_with_raw_key jwt token TokenType.access raw)
        JwksError.token_verification_failed (λ c. ok c) claims h in
    let (der, g, k) =
      bound-some (jwt.raw_to_der raw)
        (λ der. of_type jwt TokenType.access (jwt.decode_der token der)) claims
        (e ∙ ap some (ok-inj c claims f)) in
    let (d, t) = of_type-some jwt TokenType.access (jwt.decode_der token der) claims k in
    (same_type-access claims.typ t, (der, g, d))
  where
    bound-some :
        (o : Option String) (f : String → Option Claims) (c : Claims)
        → (elim o [ none ↦ none | some a ↦ f a ]) ≡ some c
        → (a : String) × (o ≡ some a) × (f a ≡ some c)
    bound-some none f c h = absurd (cc)
    bound-some (some a) f c h = (a, refl, h)

-- A token that the gateway accepts is an access token, so never a refresh token, and the library has
-- decoded it with a key that the loaded cache holds.
pub verify_sound :
    (jwt : Jwt) (cache : Option JwksCache) (token : String) (claims : Claims)
    → verify jwt cache token ≡ ok claims
    → (claims.typ ≡ TokenType.access)
      × ((keys : JwksCache) × (cache ≡ some keys)
          × ((raw : String) × (der : String) × Holds keys raw
              × (jwt.raw_to_der raw ≡ some der)
              × (jwt.decode_der token der ≡ some claims)))
unfolding verify
verify_sound jwt cache token claims h =
    let (kid, e, f) = found-ok (jwt.decode_header token) _ _ claims h in
    let (raw, g, k) = and_then-ok (key_for jwt cache kid) (with_key jwt token) claims f in
    let (keys, l, m) = key_for-Holds jwt cache kid raw g in
    let (t, (der, d, c)) = with_key-decodes jwt token raw claims k in
    (t, (keys, l, (raw, der, m, d, c)))
