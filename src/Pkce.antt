-- ===== src/Pkce.antt =====
-- crates/oidc-core/src/pkce.rs: PKCE with `S256`.
pub mod Verify
use discord_oidc.Prelude.{
  ℕ, String, len, Bool, false, not, ◌&&◌, ◌||◌, all, leb, eqb, if◌then◌else◌,
}
use discord_oidc.Prelude.Text.{as_bytes, is_ascii_alphanumeric}
use discord_oidc.Crates.{Crates}
use discord_oidc.Crates.Compare.{ct_eq_text}
use discord_oidc.Util.{sha256_b64url}

abbrev pub required_challenge_method : String
required_challenge_method = "S256"

unfoldable pub is_unreserved : ℕ → Bool
is_unreserved b = is_ascii_alphanumeric b || eqb b b'-' || eqb b b'.' || eqb b b'_' || eqb b b'~'

unfoldable pub is_valid_code_verifier : String → Bool
unfolding is_unreserved
is_valid_code_verifier verifier =
    leb 43 (len verifier) && leb (len verifier) 128 && all is_unreserved (as_bytes verifier)

unfoldable pub is_valid_code_challenge : String → Bool
is_valid_code_challenge challenge =
    leb 43 (len challenge)
    && leb (len challenge) 128
    && all (λ b. is_ascii_alphanumeric b || eqb b b'-' || eqb b b'_') (as_bytes challenge)

module _ ⦃c : Crates⦄ where
  unfoldable pub verify_s256 : String → String → Bool
  verify_s256 verifier challenge =
      if not (is_valid_code_verifier verifier) || not (is_valid_code_challenge challenge)
      then false
      else let computed = sha256_b64url (as_bytes verifier) in ct_eq_text computed challenge
