-- ===== src/Admin/Access.antt =====
-- crates/oidc-core/src/admin.rs: what it takes to use the admin API.
use discord_oidc.Prelude.{
  String, ◌≡◌, ◌≢◌, ◌↔◌, refl, ap, true, false, Option, none, some, arith, Option-cases, Bool-cases,
  inl, inr,
}
use discord_oidc.Prelude.Int.{ℤ}
use discord_oidc.Prelude.Text.{trim, strip_prefix, is_empty_text}
use discord_oidc.Crates.{Crates}
use discord_oidc.Crates.Compare.{ct_eq_text_iff}
use discord_oidc.Config.{Config}
use discord_oidc.Registry.{DynamicClientRegistry}
use discord_oidc.Util.{Entropy}
use discord_oidc.Admin.{
  authorize_admin, bearer_token, token_matches, AdminRequest, handle_admin_request,
}
use discord_oidc.Admin.Replies.{admin_error}
use discord_oidc.Admin.Operations.{CreateClientRequest, UpdateClientRequest}

text_present_iff : (s : String) → (is_empty_text s ≡ false) ↔ (s ≢ "")
text_present_iff String.[] = (λ e. absurd (ground arith), λ n. absurd (n refl))
text_present_iff (String.◌∷◌ x s) = (λ _ e. ground (arith, ap is_empty_text e), λ n. refl)

module _ ⦃c : Crates⦄ where
  -- The header carries the configured token, which is not empty.
  pub record Presents (authorization : Option String) (admin_token : Option String) : Type 0 where
    pub header : String
    pub token : String
    pub is_presented : authorization ≡ some header
    pub is_bearer : strip_prefix "Bearer " (trim header) ≡ some token
    pub is_configured : admin_token ≡ some token
    pub is_present : token ≢ ""

  -- A caller is authorised exactly when a token is configured and is not empty, and the trimmed
  -- header is that token behind `Bearer `; without a configured token nobody is.
  pub authorize_admin_iff :
      (authorization admin_token : Option String)
      → (authorize_admin authorization admin_token ≡ true) ↔ Presents authorization admin_token
  unfolding authorize_admin bearer_token token_matches
  authorize_admin_iff a none = (λ e. absurd (ground arith), λ p. ground (arith, p.is_configured))
  authorize_admin_iff none (some t) =
      (λ e. absurd (ground arith), λ p. ground (arith, p.is_presented))
  authorize_admin_iff (some h) (some t) = elim (Option-cases (strip_prefix "Bearer " (trim h))) [
    | inl absent ↦ (λ e. absurd (ground arith), λ p. ground (arith, p.is_presented, p.is_bearer))
    | inr (x, found) ↦ (
      λ e. record {
        header = h;
        token = x;
        is_presented = refl;
        is_bearer = found;
        is_configured = ground (arith, ct_eq_text_iff x t);
        is_present = (text_present_iff x).0 (ground arith);
      },
      λ p. ground (
        arith,
        p.is_presented,
        p.is_bearer,
        p.is_configured,
        p.is_present,
        text_present_iff x,
        ct_eq_text_iff x t,
      ),
    )
  ]

  pub authorize_admin_absent :
      (authorization admin_token : Option String)
      → ¬ Presents authorization admin_token
      → authorize_admin authorization admin_token ≡ false
  authorize_admin_absent a t absent = elim (Bool-cases (authorize_admin a t)) [
    | inl granted ↦ absurd (absent ((authorize_admin_iff a t).0 granted))
    | inr refused ↦ refused
  ]

  -- A request that does not present the configured token is answered with 401 and nothing else: the
  -- registry and the entropy stay as they were, whatever the path, the method and the body.
  handle_admin_request_denied :
      (parse_create : String → Option CreateClientRequest)
      (parse_update : String → Option UpdateClientRequest) {R : Type 0} (cfg : Config)
      (registry : DynamicClientRegistry R) (now : ℤ) (admin_token : Option String)
      (req : AdminRequest) (r : R) (e : Entropy)
      → ¬ Presents req.authorization admin_token
      → handle_admin_request parse_create parse_update cfg registry now admin_token req r e
        ≡ (admin_error 401 "unauthorized" none, r, e)
  unfolding handle_admin_request
  handle_admin_request_denied pc pu cfg registry now t req r e absent =
      rw (authorize_admin_absent req.authorization t absent) refl
