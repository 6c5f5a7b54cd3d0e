-- ===== src/Auth/KeyDocument/Trust.antt =====
-- services/crates/auth/src/router.rs and gateway/src/jwks.rs: the gateway, with the key document of
-- auth, against auth itself.
use oj_monorepo.Base.{
  ℕ, ◌≡◌, refl, ap, ◌∙◌, ◌⊎◌, inl, inr, String, str_eq_iff, List, [], ◌∷◌, map, Option, none, some,
  Result, ok, err, and_then,
}
use oj_monorepo.Auth.Store.{AppState}
use oj_monorepo.Auth.Token.{TokenType, Claims, Jwt, of_type, verify, verify_with_raw_key}
use oj_monorepo.Auth.KeyDocument.{
  KeyTools, JwkEntry, JwksResponse, extract_ed25519_public_key, document_entry, jwks_handler,
}
use oj_monorepo.Gateway.Jwks
use oj_monorepo.Gateway.Jwks.{
  Jwk, JwksError, JwksCache, get_key, insert_key, load_keys, fetch_jwks, lookup_key, key_for,
  with_key,
}

-- An entry of the document as the gateway reads it.
abbrev pub as_read : JwkEntry → Jwk
as_read e = record { kid = e.kid; x = e.x }

-- What the gateway gets from the answer of the handler.
abbrev pub as_fetched : Result JwksResponse ℕ → Result (List Jwk) JwksError
as_fetched (ok r) = ok (map as_read r.keys)
as_fetched (err status) = err (JwksError.fetch_failed "status")

abbrev pub accepted : Option Claims → Result Claims JwksError
accepted none = err JwksError.token_verification_failed
accepted (some claims) = ok claims

-- A cache of one key finds it.
lookup_one : (k raw : String) → lookup_key ((k, raw) ∷ []) (some k) ≡ ok raw
unfolding lookup_key get_key
lookup_one k raw = rw ((str_eq_iff k k).1 refl, lookup_key, get_key) refl

module _ (tools : KeyTools) (jwt : Jwt) (state : AppState) (raw_key : List ℕ) (der : String) where
  open tools use {base64_encode, base64_decode, text_of}

  -- base64 is decoded as it was encoded.
  abbrev pub DecodesBase64 : Type 0
  DecodesBase64 = (bytes : List ℕ) → base64_decode (base64_encode bytes) ≡ some (text_of bytes)

  -- The key of 32 bytes and the document that it comes from are one key.
  abbrev pub IsOneKey : Type 0
  IsOneKey =
      (jwt.raw_to_der (text_of raw_key) ≡ some der)
      × ((token : String) → jwt.decode_der token der ≡ jwt.decode_pem token state.public_key_pem)

  abbrev pub kid : String
  kid = (document_entry tools raw_key).kid

  fetched_cache :
      DecodesBase64
      → extract_ed25519_public_key tools state.public_key_pem ≡ some raw_key
      → fetch_jwks base64_decode (as_fetched (jwks_handler tools state))
        ≡ ok ((kid, text_of raw_key) ∷ [])
  unfolding jwks_handler fetch_jwks load_keys insert_key
  fetched_cache d e = rw (e, jwks_handler) (rw (d raw_key, load_keys) refl)

  key-found :
      (header : Option String)
      → (header ≡ none) ⊎ (header ≡ some kid)
      → key_for jwt (some ((kid, text_of raw_key) ∷ [])) header ≡ ok (text_of raw_key)
  unfolding key_for lookup_key
  key-found header (inl n) = rw n refl
  key-found header (inr s) = rw s (lookup_one kid (text_of raw_key))

  raw_key-verifies :
      (token : String)
      → IsOneKey
      → verify_with_raw_key jwt token TokenType.access (text_of raw_key)
        ≡ verify jwt token TokenType.access state.public_key_pem
  unfolding verify_with_raw_key verify
  raw_key-verifies token k =
      rw (k.0, verify_with_raw_key) (ap (of_type jwt TokenType.access) (k.1 token))

  with_key-accepted :
      (token : String) (o : Option Claims)
      → verify_with_raw_key jwt token TokenType.access (text_of raw_key) ≡ o
      → with_key jwt token (text_of raw_key) ≡ accepted o
  unfolding with_key
  with_key-accepted token none e = rw (e, with_key) refl
  with_key-accepted token (some claims) e = rw (e, with_key) refl

  -- With the key document that auth serves, the gateway accepts exactly the tokens that auth itself
  -- accepts as access tokens, with the same claims, and refuses all others as not verified: for every
  -- token whose header names the key of the document or, as those of auth do, none. The document can be
  -- served, base64 is decoded as it was encoded, and the 32 bytes stand for the key of the document.
  pub verify-fetched :
      (token : String) (header : Option String)
      → extract_ed25519_public_key tools state.public_key_pem ≡ some raw_key
      → DecodesBase64
      → IsOneKey
      → jwt.decode_header token ≡ some header
      → (header ≡ none) ⊎ (header ≡ some kid)
      → (cache : JwksCache) × (fetch_jwks base64_decode (as_fetched (jwks_handler tools state))
          ≡ ok cache)
        × (Jwks.verify jwt (some cache) token
            ≡ accepted (verify jwt token TokenType.access state.public_key_pem))
  unfolding Jwks.verify
  verify-fetched token header e d k h n = (
    (kid, text_of raw_key) ∷ [],
    fetched_cache d e,
    rw (h, Jwks.verify)
        (ap (λ r. and_then r (with_key jwt token)) (key-found header n)
          ∙ with_key-accepted token _ (raw_key-verifies token k)),
  )
