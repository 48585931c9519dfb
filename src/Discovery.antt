-- ===== src/Discovery.antt =====
-- crates/oidc-core/src/discovery.rs: the metadata of `/.well-known/openid-configuration`.
use Prim.Native.String
use discord_oidc.Prelude.{[], ◌∷◌}
use discord_oidc.Json.{Value, str, object, strings}
use discord_oidc.Client.{supported_scopes}
use discord_oidc.Config.{Config}

unfoldable pub discovery_document : Config → Value
discovery_document cfg =
    let issuer = cfg.issuer in
    object (
      ("issuer", str issuer)
      ∷ ("authorization_endpoint", str (String.◌++◌ issuer "/authorize"))
      ∷ ("token_endpoint", str (String.◌++◌ issuer "/token"))
      ∷ ("jwks_uri", str (String.◌++◌ issuer "/jwks.json"))
      ∷ ("response_types_supported", strings ("code" ∷ []))
      ∷ ("response_modes_supported", strings ("query" ∷ []))
      ∷ ("grant_types_supported", strings ("authorization_code" ∷ []))
      ∷ ("subject_types_supported", strings ("public" ∷ []))
      ∷ ("id_token_signing_alg_values_supported", strings ("RS256" ∷ []))
      ∷ ("scopes_supported", strings supported_scopes)
      ∷ (
        "claims_supported",
        strings ("iss" ∷ "sub" ∷ "aud" ∷ "iat" ∷ "exp" ∷ "nonce" ∷ "at_hash" ∷ []),
      )
      ∷ ("token_endpoint_auth_methods_supported", strings ("client_secret_basic" ∷ "none" ∷ []))
      ∷ ("code_challenge_methods_supported", strings ("S256" ∷ []))
      ∷ [])
