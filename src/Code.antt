-- ===== src/Code.antt =====
-- crates/oidc-core/src/code.rs: the provider's authorization codes.
pub mod Exchange
use discord_oidc.Prelude.{String, Bool, true, false, not, Option, Result, ok, err, if◌then◌else◌}
use discord_oidc.Prelude.Text.{as_bytes}
use discord_oidc.Prelude.Int.{ℤ, pos, add_i64, leb_ℤ}
use discord_oidc.Crates.{Crates}
use discord_oidc.Crates.Compare.{ct_eq_text}
use discord_oidc.Util.{Entropy, random_token, sha256_b64url}
use discord_oidc.Pkce.{verify_s256}
use discord_oidc.Transaction.{AuthorizationTransaction}

-- `AUTHORIZATION_CODE_TTL_SECS`, of config.rs.
abbrev pub authorization_code_ttl_secs : ℤ
authorization_code_ttl_secs = pos 60

pub record StoredAuthorizationCode : Type 0 where
  pub code_hash : String
  pub client_id : String
  pub redirect_uri : String
  pub subject : String
  pub scope : String
  pub nonce : Option String
  pub code_challenge : String
  pub created_at : ℤ
  pub expires_at : ℤ

-- `record` is a reserved word: the field is named `stored`.
pub record IssuedCode : Type 0 where
  pub plaintext : String
  pub stored : StoredAuthorizationCode

pub record ExchangeCheck : Type 0 where
  pub client_id : String
  pub redirect_uri : String
  pub code_verifier : String

pub data ConsumeDeny : Type 0 where
  unknown expired client_mismatch redirect_mismatch pkce_mismatch : ConsumeDeny

module _ ⦃c : Crates⦄ where
  unfoldable pub issue_code : AuthorizationTransaction → String → Entropy → ℤ → IssuedCode × Entropy
  issue_code tx subject e now =
      let (plaintext, e') = random_token e in
      (
        record {
          plaintext = plaintext;
          stored = record {
            code_hash = sha256_b64url (as_bytes plaintext);
            client_id = tx.oidc_client_id;
            redirect_uri = tx.redirect_uri;
            subject = subject;
            scope = tx.requested_scope;
            nonce = tx.nonce;
            code_challenge = tx.code_challenge;
            created_at = now;
            expires_at = add_i64 now authorization_code_ttl_secs;
          };
        },
        e',
      )

  unfoldable pub evaluate_code_exchange :
      StoredAuthorizationCode → ExchangeCheck → ℤ → Result (Unit {0}) ConsumeDeny
  evaluate_code_exchange stored check now =
      if leb_ℤ stored.expires_at now
      then err expired
      else if not (ct_eq_text stored.client_id check.client_id)
      then err client_mismatch
      else if not (ct_eq_text stored.redirect_uri check.redirect_uri)
      then err redirect_mismatch
      else if not (verify_s256 check.code_verifier stored.code_challenge)
      then err pkce_mismatch
      else ok tt

  unfoldable pub hash_presented_code : String → String
  hash_presented_code plaintext = sha256_b64url (as_bytes plaintext)
