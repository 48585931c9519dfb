-- ===== src/Transaction.antt =====
-- crates/oidc-core/src/transaction.rs: the state between `/authorize` and the Discord callback.
use discord_oidc.Prelude.{String, Bool, Option}
use discord_oidc.Prelude.Int.{ℤ, pos, add_i64, leb_ℤ}
use discord_oidc.Crates.{Crates}
use discord_oidc.Util.{Entropy, random_token}

-- `TRANSACTION_TTL_SECS`, of config.rs.
abbrev pub transaction_ttl_secs : ℤ
transaction_ttl_secs = pos 600

pub record AuthorizationTransaction : Type 0 where
  pub id : String
  pub oidc_client_id : String
  pub redirect_uri : String
  pub requested_scope : String
  pub rp_state : Option String
  pub nonce : Option String
  pub code_challenge : String
  pub discord_oauth_state : String
  pub created_at : ℤ
  pub expires_at : ℤ

unfoldable pub is_expired : AuthorizationTransaction → ℤ → Bool
is_expired tx now = leb_ℤ tx.expires_at now

module _ ⦃c : Crates⦄ where
  unfoldable pub new_transaction :
      String
      → String
      → String
      → Option String
      → Option String
      → String
      → Entropy
      → ℤ
      → AuthorizationTransaction × Entropy
  new_transaction client_id uri scope rp_state rp_nonce challenge e now =
      let (id, e₁) = random_token e in
      let (state, e₂) = random_token e₁ in
      (
        record {
          id = id;
          oidc_client_id = client_id;
          redirect_uri = uri;
          requested_scope = scope;
          rp_state = rp_state;
          nonce = rp_nonce;
          code_challenge = challenge;
          discord_oauth_state = state;
          created_at = now;
          expires_at = add_i64 now transaction_ttl_secs;
        },
        e₂,
      )
