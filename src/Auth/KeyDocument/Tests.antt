-- ===== src/Auth/KeyDocument/Tests.antt =====
-- The key document of auth at a concrete key: 34 bytes of DER, whose last 32 are the key.
use oj_monorepo.Base.{
  ℕ, ◌≡◌, refl, String, List, [], ◌∷◌, none, some, ok, inl, replicate, if◌then◌else◌, ◌==◌, str_eq,
}
use oj_monorepo.Auth.Store.{AppState}
use oj_monorepo.Auth.Token.{TokenType, Claims, Jwt, verify}
use oj_monorepo.Auth.KeyDocument.{KeyTools, extract_ed25519_public_key, last_32, jwks_handler}
use oj_monorepo.Auth.KeyDocument.Trust.{as_fetched, accepted, verify-fetched}
use oj_monorepo.Gateway.Jwks
use oj_monorepo.Gateway.Jwks.{JwksCache, fetch_jwks}

abbrev raw_key : List ℕ
raw_key = 7 ∷ replicate 31 9

-- The name of a list of bytes is its first byte.
abbrev name_of : List ℕ → String
name_of [] = "none"
name_of (b ∷ bytes) = if b == 7 then "key" else "digest"

abbrev tools : KeyTools
tools = record {
  pem_contents = λ pem. some (48 ∷ (42 ∷ raw_key));
  sha256 = λ bytes. 1 ∷ bytes;
  base64_encode = name_of;
  base64_decode = λ s. some s;
  text_of = name_of;
}

abbrev claims_of : String → Claims
claims_of token = record {
  aud = "onlinejudge";
  exp = 100;
  iat = 0;
  iss = "auth";
  nbf = 0;
  sub = token;
  typ = if str_eq token "refresh" then TokenType.refresh else TokenType.access;
}

abbrev jwt : Jwt
jwt = record {
  decode_header = λ token. some none;
  raw_to_der = λ raw. some raw;
  decode_pem = λ token key. some (claims_of token);
  decode_der = λ token der. some (claims_of token);
  encode = λ claims key. some claims.sub;
  parse_uuid = λ s. some s;
}

abbrev state : AppState
state = record {
  private_key_pem = "private";
  public_key_pem = "public";
  access_token_ttl_secs = 10;
  refresh_token_ttl_secs = 1000;
}

short_der : last_32 tools (replicate 31 9) ≡ none
unfolding last_32
short_der = refl

public_key : extract_ed25519_public_key tools "public" ≡ some raw_key
unfolding extract_ed25519_public_key last_32
public_key = refl

verify-fetched_example :
    (cache : JwksCache) × (fetch_jwks some (as_fetched (jwks_handler tools state)) ≡ ok cache)
    × (Jwks.verify jwt (some cache) "refresh"
        ≡ accepted (verify jwt "refresh" TokenType.access state.public_key_pem))
verify-fetched_example =
    verify-fetched tools jwt state raw_key "key" "refresh" none public_key (λ bytes. refl)
      (refl, λ token. refl) refl (inl refl)
