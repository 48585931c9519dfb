-- ===== src/Client/Valid.antt =====
-- The clients that the validation of client.rs accepts.
use discord_oidc.Prelude.{
  String, len, ◌≤◌, ◌≡◌, ◌≢◌, ◌↔◌, refl, ap, inl, inr, true, false, not, List, [], ◌∷◌, ok, All,
  any, contains, is_empty, ◌==◌, arith, Bool-cases, eq_iff,
}
use discord_oidc.Prelude.Text.{is_empty_text}
use discord_oidc.Crates.{Crates}
use discord_oidc.Client.{
  ClientConfig, ClientType, TokenEndpointAuthMethod, public, confidential, no_auth,
  client_secret_basic, is_consistent, is_valid_redirect_uri, check_redirect_uris, validate_client,
  supported_scopes,
}

-- How the client authenticates at the token endpoint.
pub data HasMethod : ClientType → TokenEndpointAuthMethod → Type 0 where
  public_none : HasMethod public no_auth
  confidential_basic : HasMethod confidential client_secret_basic

module _ ⦃c : Crates⦄ where
  pub record IsValidClient (d : ClientConfig) : Type 0 where
    pub id_present : d.client_id ≢ ""
    pub id_short : len d.client_id ≤ 128
    pub some_uri : d.redirect_uris ≢ []
    pub uris_valid : All (λ u. is_valid_redirect_uri u ≡ true) d.redirect_uris
    pub some_scope : d.allowed_scopes ≢ []
    pub scopes_openid : All (λ s. s ≡ "openid") d.allowed_scopes
    pub method : HasMethod d.client_type d.token_endpoint_auth_method

  check_redirect_uris_sound :
      (id : String) (uris : List String)
      → check_redirect_uris id uris ≡ ok tt
      → All (λ u. is_valid_redirect_uri u ≡ true) uris
  unfolding check_redirect_uris
  check_redirect_uris_sound id [] e = tt
  check_redirect_uris_sound id (u ∷ us) e = elim (Bool-cases (is_valid_redirect_uri u)) [
    | inl v ↦ (v, check_redirect_uris_sound id us (ground arith))
    | inr v ↦ ground arith
  ]

  check_redirect_uris_complete :
      (id : String) (uris : List String)
      → All (λ u. is_valid_redirect_uri u ≡ true) uris
      → check_redirect_uris id uris ≡ ok tt
  unfolding check_redirect_uris
  check_redirect_uris_complete id [] a = refl
  check_redirect_uris_complete id (u ∷ us) (v, a) = rw v (check_redirect_uris_complete id us a)

  only_openid :
      (ss : List String)
      → any (λ s. not (contains supported_scopes s)) ss ≡ false
      → All (λ s. s ≡ "openid") ss
  only_openid [] e = tt
  only_openid (s ∷ ss) e = ground (arith, eq_iff "openid" s, only_openid ss)

  has_method :
      (t : ClientType) (m : TokenEndpointAuthMethod) → is_consistent t m ≡ true → HasMethod t m
  has_method public no_auth e = public_none
  has_method confidential client_secret_basic e = confidential_basic
  has_method public client_secret_basic e = cc
  has_method confidential no_auth e = cc

  is_consistent_of_HasMethod :
      {t : ClientType} {m : TokenEndpointAuthMethod} → HasMethod t m → is_consistent t m ≡ true
  is_consistent_of_HasMethod public_none = refl
  is_consistent_of_HasMethod confidential_basic = refl

  none_unsupported :
      (ss : List String)
      → All (λ s. s ≡ "openid") ss
      → any (λ s. not (contains supported_scopes s)) ss ≡ false
  none_unsupported [] a = refl
  none_unsupported (s ∷ ss) (e, a) = ground (arith, eq_iff "openid" s, none_unsupported ss a)

  text_present : (s : String) → s ≢ "" → is_empty_text s ≡ false
  text_present String.[] h = absurd (h refl)
  text_present (String.◌∷◌ x s) h = refl

  openid_among :
      (ss : List String)
      → ss ≢ []
      → All (λ s. s ≡ "openid") ss
      → (is_empty ss ≡ false) × (any (λ s. s == "openid") ss ≡ true)
  openid_among [] h a = absurd (h refl)
  openid_among (s ∷ ss) h (e, a) = (refl, ground (arith, eq_iff s "openid"))

  validate_client-same : (d e : ClientConfig) → validate_client d ≡ ok e → d ≡ e
  unfolding validate_client
  validate_client-same d e h = ground arith

  validate_client_sound : (d e : ClientConfig) → validate_client d ≡ ok e → IsValidClient d
  unfolding validate_client
  validate_client_sound d e h = record {
    id_present = λ absent. ground (arith, ap is_empty_text absent);
    id_short = ground arith;
    some_uri = ground arith;
    uris_valid = check_redirect_uris_sound d.client_id d.redirect_uris (ground arith);
    some_scope = ground arith;
    scopes_openid = only_openid d.allowed_scopes (ground arith);
    method = has_method d.client_type d.token_endpoint_auth_method (ground arith);
  }

  validate_client_complete : (d : ClientConfig) → IsValidClient d → validate_client d ≡ ok d
  unfolding validate_client
  validate_client_complete d v = ground (
    arith,
    text_present d.client_id,
    check_redirect_uris_complete d.client_id d.redirect_uris v.uris_valid,
    none_unsupported d.allowed_scopes v.scopes_openid,
    openid_among d.allowed_scopes v.some_scope v.scopes_openid,
    is_consistent_of_HasMethod v.method,
  )

  -- `validate_client` accepts exactly the valid clients, and hands them back unchanged.
  pub validate_client_iff :
      (d e : ClientConfig) → (validate_client d ≡ ok e) ↔ ((d ≡ e) × IsValidClient d)
  validate_client_iff d e = (
    λ h. (validate_client-same d e h, validate_client_sound d e h),
    λ (same, v). rw (← same) (validate_client_complete d v),
  )
