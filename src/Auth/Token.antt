-- ===== src/Auth/Token.antt =====
-- services/crates/auth/src/token.rs: the JSON web tokens. Encoding, signing, decoding and the
-- checks that `jsonwebtoken` makes by its `Validation` are a parameter.
use oj_monorepo.Base.{
  ℕ, ◌+◌, ◌-◌, min, String, Bool, true, false, Option, none, some, if◌then◌else◌, u64_mod, ◌≡◌,
  subst, if_cases,
}

pub data TokenType : Type 0 where
  access : TokenType
  refresh : TokenType

pub record Claims : Type 0 where
  pub aud : String
  pub exp : ℕ
  pub iat : ℕ
  pub iss : String
  pub nbf : ℕ
  pub sub : String
  pub typ : TokenType

-- The libraries. A key is a text: the PEM or DER document, or the 32 raw bytes.
pub record Jwt : Type 0 where
  -- The key id of the header; the outer `none` is a header that cannot be decoded.
  pub decode_header : String → Option (Option String)
  -- `raw_to_der`, up to the checks of `ed25519_dalek`.
  pub raw_to_der : String → Option String
  pub decode_pem : String → String → Option Claims
  pub decode_der : String → String → Option Claims
  pub encode : Claims → String → Option String
  pub parse_uuid : String → Option String

abbrev pub same_type : TokenType → TokenType → Bool
same_type TokenType.access TokenType.access = true
same_type TokenType.access TokenType.refresh = false
same_type TokenType.refresh TokenType.access = false
same_type TokenType.refresh TokenType.refresh = true

abbrev issuer : String
issuer = "auth"

abbrev audience : String
audience = "onlinejudge"

-- `saturating_add` on u64.
abbrev saturating_add : ℕ → ℕ → ℕ
saturating_add a b = min (a + b) (u64_mod - 1)

module _ (jwt : Jwt) where
  open jwt use {raw_to_der, decode_pem, decode_der, encode}

  pub new_claims : String → TokenType → ℕ → ℕ → Claims
  new_claims subject typ now expiration_secs = record {
    aud = audience;
    exp = saturating_add now expiration_secs;
    iat = now;
    iss = issuer;
    nbf = now;
    sub = subject;
    typ = typ;
  }

  -- At the time `now`, in seconds.
  unfoldable pub generate : String → TokenType → String → ℕ → ℕ → Option String
  unfolding new_claims
  generate subject typ private_key_pem expiration_secs now =
      encode (new_claims subject typ now expiration_secs) private_key_pem

  unfoldable pub of_type : TokenType → Option Claims → Option Claims
  of_type typ none = none
  of_type typ (some claims) = if same_type claims.typ typ then some claims else none

  unfoldable pub verify : String → TokenType → String → Option Claims
  unfolding of_type
  verify token typ public_key_pem = of_type typ (decode_pem token public_key_pem)

  unfoldable pub verify_with_raw_key : String → TokenType → String → Option Claims
  unfolding of_type
  verify_with_raw_key token typ raw_key = elim (raw_to_der raw_key) [
    | none ↦ none
    | some der ↦ of_type typ (decode_der token der)
  ]

  same-claims :
      (c claims : Claims) (typ : TokenType)
      → Path (Option Claims) (some c) (some claims)
      → same_type c.typ typ ≡ true
      → same_type claims.typ typ ≡ true
  same-claims c claims typ k e =
      let q : c ≡ claims = cc in subst (λ (d : Claims). same_type d.typ typ ≡ true) q e

  pub of_type-some :
      (typ : TokenType) (found : Option Claims) (claims : Claims)
      → of_type typ found ≡ some claims
      → (found ≡ some claims) × (same_type claims.typ typ ≡ true)
  unfolding of_type
  of_type-some typ none claims h = absurd (cc)
  of_type-some typ (some c) claims h =
      if_cases
        (λ (o : Option Claims).
          o ≡ some claims → (some c ≡ some claims) × (same_type claims.typ typ ≡ true))
        (same_type c.typ typ) (some c) none (λ e k. (k, same-claims c claims typ k e))
        (λ e k. absurd (cc)) h
