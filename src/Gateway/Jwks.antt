-- ===== src/Gateway/Jwks.antt =====
-- services/crates/gateway/src/jwks.rs: the cache of public keys, and verifying a token with it.
-- Fetching the document and base64 are parameters; a lock is always taken.
pub mod Verified
use oj_monorepo.Base.{
  ℕ, ◌==◌, String, str_eq, length, List, [], ◌∷◌, Option, none, some, Result, ok, err, and_then,
  if◌then◌else◌,
}
use oj_monorepo.Auth.Token.{TokenType, Claims, Jwt, verify_with_raw_key}

pub data JwksError : Type 0 where
  fetch_failed : String → JwksError
  keys_not_loaded : JwksError
  unknown_kid : String → JwksError
  token_verification_failed : JwksError
  base64_decode_failed : JwksError
  malformed_token : String → JwksError

-- The map of keys by their id, without a second entry for an id.
abbrev pub JwksCache : Type 0
JwksCache = List (String × String)

pub record Jwk : Type 0 where
  pub kid : String
  pub x : String

unfoldable pub get_key : String → JwksCache → Option String
get_key kid [] = none
get_key kid ((k, raw) ∷ rest) = if str_eq k kid then some raw else get_key kid rest

-- `HashMap::insert`.
unfoldable pub insert_key : String → String → JwksCache → JwksCache
insert_key kid raw [] = (kid, raw) ∷ []
insert_key kid raw ((k, r) ∷ rest) =
    let others = insert_key kid raw rest in
    if str_eq k kid then (kid, raw) ∷ rest else (k, r) ∷ others

module _ (base64_decode : String → Option String) where
  -- The loop of `fetch_jwks` over the entries of the document.
  unfoldable pub load_keys : List Jwk → JwksCache → Result JwksCache JwksError
  unfolding insert_key
  load_keys [] keys = ok keys
  load_keys (entry ∷ entries) keys = elim (base64_decode entry.x) [
    | none ↦ err JwksError.base64_decode_failed
    | some raw ↦ load_keys entries (insert_key entry.kid raw keys)
  ]

  -- `fetch_jwks`, from the document that the request has brought.
  unfoldable pub fetch_jwks : Result (List Jwk) JwksError → Result JwksCache JwksError
  unfolding load_keys
  fetch_jwks fetched = and_then fetched (λ entries. load_keys entries [])

  -- A turn of the background refresh: a failure keeps what there is.
  unfoldable pub refreshed : Result (List Jwk) JwksError → Option JwksCache → Option JwksCache
  unfolding fetch_jwks
  refreshed fetched cache = elim (fetch_jwks fetched) [ ok keys ↦ some keys | err e ↦ cache ]

unfoldable pub lookup_key : JwksCache → Option String → Result String JwksError
unfolding get_key
lookup_key cache (some kid) = elim (get_key kid cache) [
  | none ↦ err (JwksError.unknown_kid kid)
  | some raw ↦ ok raw
]
lookup_key [] none =
    err (JwksError.malformed_token "missing kid in JWT header and JWKS has multiple keys")
lookup_key ((kid, raw) ∷ []) none = ok raw
lookup_key (x ∷ (y ∷ rest)) none =
    err (JwksError.malformed_token "missing kid in JWT header and JWKS has multiple keys")

module _ (jwt : Jwt) where
  unfoldable pub key_for : Option JwksCache → Option String → Result String JwksError
  unfolding lookup_key
  key_for none kid = err JwksError.keys_not_loaded
  key_for (some cache) kid = lookup_key cache kid

  unfoldable pub with_key : String → String → Result Claims JwksError
  unfolding verify_with_raw_key
  with_key token raw = elim (verify_with_raw_key jwt token TokenType.access raw) [
    | none ↦ err JwksError.token_verification_failed
    | some claims ↦ ok claims
  ]

  unfoldable pub verify : Option JwksCache → String → Result Claims JwksError
  unfolding key_for with_key
  verify cache token = elim (jwt.decode_header token) [
    | none ↦ err (JwksError.malformed_token "failed to decode JWT header")
    | some kid ↦ and_then (key_for cache kid) (with_key token)
  ]
