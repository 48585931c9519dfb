-- ===== src/Pkce/Verify.antt =====
-- When a verifier is accepted.
use discord_oidc.Prelude.{String, ◌≡◌, ◌↔◌, true, arith}
use discord_oidc.Prelude.Text.{as_bytes}
use discord_oidc.Crates.{Crates}
use discord_oidc.Crates.Compare.{ct_eq_text_iff}
use discord_oidc.Util.{sha256_b64url}
use discord_oidc.Util.Tokens.{sha256_b64url-IsB64Url, IsB64Url}
use discord_oidc.Pkce.{is_valid_code_verifier, is_valid_code_challenge, verify_s256}

challenge_of_IsB64Url : (s : String) → IsB64Url 43 s → is_valid_code_challenge s ≡ true
unfolding is_valid_code_challenge
challenge_of_IsB64Url s (l, a) = rw (l, a)

module _ ⦃c : Crates⦄ where
  -- A verifier is accepted for a challenge exactly when it is well-formed and the challenge is the
  -- base64url of its SHA-256; the separate test of the challenge's form refuses nothing more.
  pub verify_s256_iff :
      (verifier challenge : String)
      → (verify_s256 verifier challenge ≡ true) ↔ (
          (is_valid_code_verifier verifier ≡ true)
          × (sha256_b64url (as_bytes verifier) ≡ challenge))
  unfolding verify_s256
  verify_s256_iff verifier challenge = ground (
    arith,
    ct_eq_text_iff (sha256_b64url (as_bytes verifier)) challenge,
    challenge_of_IsB64Url (sha256_b64url (as_bytes verifier))
        (sha256_b64url-IsB64Url (as_bytes verifier)),
  )
