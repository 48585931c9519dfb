-- ===== src/Code/Exchange.antt =====
-- Which exchanges are accepted, and which error the others get.
use discord_oidc.Prelude.{◌≡◌, ◌≢◌, ◌↔◌, true, ok, err, arith}
use discord_oidc.Prelude.Text.{as_bytes}
use discord_oidc.Prelude.Int.{ℤ, ◌≤ℤ◌, ◌<ℤ◌}
use discord_oidc.Crates.{Crates}
use discord_oidc.Crates.Compare.{ct_eq_text_iff}
use discord_oidc.Util.{sha256_b64url}
use discord_oidc.Pkce.{is_valid_code_verifier}
use discord_oidc.Pkce.Verify.{verify_s256_iff}
use discord_oidc.Code.{
  StoredAuthorizationCode, ExchangeCheck, ConsumeDeny, expired, unknown, client_mismatch,
  redirect_mismatch, pkce_mismatch, evaluate_code_exchange,
}

module _ ⦃c : Crates⦄ (s : StoredAuthorizationCode) (k : ExchangeCheck) where
  -- The verifier is the one that the stored challenge was made of.
  abbrev pub ProvesPossession : Type 0
  ProvesPossession =
      (is_valid_code_verifier k.code_verifier ≡ true)
      × (sha256_b64url (as_bytes k.code_verifier) ≡ s.code_challenge)

  -- Everything that a code is bound to.
  pub record IsBound (now : ℤ) : Type 0 where
    pub live : now <ℤ s.expires_at
    pub client : s.client_id ≡ k.client_id
    pub redirect : s.redirect_uri ≡ k.redirect_uri
    pub possession : ProvesPossession

  -- The first binding that fails decides the error.
  abbrev pub Denied : ℤ → ConsumeDeny → Type 0
  Denied now unknown = ⊥
  Denied now expired = s.expires_at ≤ℤ now
  Denied now client_mismatch = (now <ℤ s.expires_at) × (s.client_id ≢ k.client_id)
  Denied now redirect_mismatch =
      (now <ℤ s.expires_at) × (s.client_id ≡ k.client_id) × (s.redirect_uri ≢ k.redirect_uri)
  Denied now pkce_mismatch =
      (now <ℤ s.expires_at)
      × (s.client_id ≡ k.client_id)
      × (s.redirect_uri ≡ k.redirect_uri)
      × (¬ ProvesPossession)

  evaluate-eq-ok : (now : ℤ) → IsBound now → evaluate_code_exchange s k now ≡ ok tt
  unfolding evaluate_code_exchange
  evaluate-eq-ok now b = ground (
    arith,
    ct_eq_text_iff s.client_id k.client_id,
    ct_eq_text_iff s.redirect_uri k.redirect_uri,
    verify_s256_iff k.code_verifier s.code_challenge,
  )

  ok_of_evaluate : (now : ℤ) → evaluate_code_exchange s k now ≡ ok tt → IsBound now
  unfolding evaluate_code_exchange
  ok_of_evaluate now e = ground (
    arith,
    ct_eq_text_iff s.client_id k.client_id,
    ct_eq_text_iff s.redirect_uri k.redirect_uri,
    verify_s256_iff k.code_verifier s.code_challenge,
  )

  -- An exchange is accepted exactly when the code is live, the client and the redirect URI are
  -- the bound ones, and the verifier answers the stored challenge.
  pub evaluate_code_exchange_ok_iff :
      (now : ℤ) → (evaluate_code_exchange s k now ≡ ok tt) ↔ IsBound now
  evaluate_code_exchange_ok_iff now = (ok_of_evaluate now, evaluate-eq-ok now)

  -- An exchange is denied with an error exactly when that error's binding is the first to fail,
  -- in the order expiry, client, redirect URI, PKCE; it is never denied as unknown.
  pub evaluate_code_exchange_err_iff :
      (now : ℤ) (d : ConsumeDeny) → (evaluate_code_exchange s k now ≡ err d) ↔ Denied now d
  unfolding evaluate_code_exchange
  evaluate_code_exchange_err_iff now unknown = ground arith
  evaluate_code_exchange_err_iff now d = ground (
    arith,
    ct_eq_text_iff s.client_id k.client_id,
    ct_eq_text_iff s.redirect_uri k.redirect_uri,
    verify_s256_iff k.code_verifier s.code_challenge,
  )
