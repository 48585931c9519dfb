-- ===== src/Util.antt =====
-- crates/oidc-core/src/util.rs: injected entropy, and base64url and SHA-256 helpers.
pub mod Tokens
use discord_oidc.Prelude.{ℕ, zero, suc, ◌+◌, String, Option, List, [], ◌∷◌}
use discord_oidc.Crates.{Crates}

-- An entropy source, as the bytes that it will yield and how many it has yielded.
pub record Entropy : Type 0 where
  pub bytes : ℕ → ℕ
  pub used : ℕ

abbrev pub drawn : (ℕ → ℕ) → ℕ → ℕ → List ℕ
drawn bytes start zero = []
drawn bytes start (suc n) = bytes start ∷ drawn bytes (start + 1) n

-- Filling a buffer of `n` bytes.
unfoldable pub fill_bytes : ℕ → Entropy → List ℕ × Entropy
fill_bytes n e = (drawn e.bytes e.used n, record e { used = e.used + n })

abbrev pub token_bytes : ℕ
token_bytes = 32

module _ ⦃c : Crates⦄ where
  unfoldable pub sha256_b64url : List ℕ → String
  sha256_b64url bs = c.url_safe_encode (c.sha256 bs)

  unfoldable pub b64url_encode : List ℕ → String
  b64url_encode bs = c.url_safe_encode bs

  unfoldable pub b64url_decode : String → Option (List ℕ)
  b64url_decode s = c.url_safe_decode s

  unfoldable pub random_token : Entropy → String × Entropy
  unfolding fill_bytes b64url_encode
  random_token e = let (buf, e') = fill_bytes token_bytes e in (b64url_encode buf, e')
