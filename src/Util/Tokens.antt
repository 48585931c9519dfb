-- ===== src/Util/Tokens.antt =====
-- The shape of the random tokens and hashes.
use discord_oidc.Prelude.{
  ℕ, zero, suc, ◌+◌, String, len, ◌≡◌, refl, ap, true, List, length, all, arith,
}
use discord_oidc.Prelude.Text.{as_bytes}
use discord_oidc.Crates.{Crates, is_b64url_byte}
use discord_oidc.Util.{Entropy, drawn, random_token, sha256_b64url}

pub length-drawn : (bytes : ℕ → ℕ) (start n : ℕ) → length (drawn bytes start n) ≡ n
length-drawn bytes start zero = refl
length-drawn bytes start (suc n) = ap suc (length-drawn bytes (start + 1) n)

-- A text of `n` characters of base64url.
abbrev pub IsB64Url : ℕ → String → Type 0
IsB64Url n s = (len s ≡ n) × (all is_b64url_byte (as_bytes s) ≡ true)

module _ ⦃c : Crates⦄ where
  pub sha256_b64url-IsB64Url : (bs : List ℕ) → IsB64Url 43 (sha256_b64url bs)
  unfolding sha256_b64url
  sha256_b64url-IsB64Url bs = (
    omega (arith, c.len-url_safe_encode (c.sha256 bs), c.length-sha256 bs),
    c.url_safe_alphabet _,
  )

  -- A random token is 43 characters of the base64url alphabet, whatever bytes were drawn.
  random_token-IsB64Url : (e : Entropy) → IsB64Url 43 (random_token e).0
  unfolding random_token
  random_token-IsB64Url e = (
    omega (arith, c.len-url_safe_encode (drawn e.bytes e.used 32), length-drawn e.bytes e.used 32),
    c.url_safe_alphabet _,
  )
