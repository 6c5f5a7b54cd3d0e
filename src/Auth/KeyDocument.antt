-- ===== src/Auth/KeyDocument.antt =====
-- services/crates/auth/src/router.rs: `jwks_handler`, the document with the public key. PEM, SHA-256
-- and base64 are parameters; the 32 bytes of a key are named by the text that the tokens use.
pub mod Trust
mod Tests
use oj_monorepo.Base.{
  ℕ, ◌-◌, leb, String, List, [], ◌∷◌, Option, none, some, Result, ok, err, length, drop,
  if◌then◌else◌,
}
use oj_monorepo.Auth.Store.{AppState}

pub record KeyTools : Type 0 where
  -- `pem::parse(..).into_contents()`.
  pub pem_contents : String → Option (List ℕ)
  pub sha256 : List ℕ → List ℕ
  -- `URL_SAFE_NO_PAD.encode` and `decode`.
  pub base64_encode : List ℕ → String
  pub base64_decode : String → Option String
  pub text_of : List ℕ → String

pub record JwkEntry : Type 0 where
  pub kty : String
  pub crv : String
  pub use_ : String
  pub alg : String
  pub kid : String
  pub x : String

pub record JwksResponse : Type 0 where
  pub keys : List JwkEntry

module _ (tools : KeyTools) where
  open tools use {pem_contents, sha256, base64_encode}

  unfoldable pub last_32 : List ℕ → Option (List ℕ)
  last_32 der = if leb 32 (length der) then some (drop (length der - 32) der) else none

  unfoldable pub extract_ed25519_public_key : String → Option (List ℕ)
  unfolding last_32
  extract_ed25519_public_key pem_bytes = elim (pem_contents pem_bytes) [
    | none ↦ none
    | some der ↦ last_32 der
  ]

  abbrev pub document_entry : List ℕ → JwkEntry
  document_entry raw_key = record {
    kty = "OKP";
    crv = "Ed25519";
    use_ = "sig";
    alg = "EdDSA";
    kid = base64_encode (sha256 raw_key);
    x = base64_encode raw_key;
  }

  -- `jwks_handler`; the error is a status.
  unfoldable pub jwks_handler : AppState → Result JwksResponse ℕ
  unfolding extract_ed25519_public_key
  jwks_handler state = elim (extract_ed25519_public_key state.public_key_pem) [
    | none ↦ err 500
    | some raw_key ↦ ok (record { keys = document_entry raw_key ∷ [] })
  ]
