-- ===== src/Config.antt =====
-- crates/oidc-core/src/config.rs: the validated configuration.
pub mod Input
pub mod Valid
use Prim.Native.String
use discord_oidc.Prelude.{String, Option, List}
use discord_oidc.Prelude.Int.{ℤ}
use discord_oidc.Prelude.Dict
use discord_oidc.Prelude.Dict.{Dict}
use discord_oidc.Client.{ClientRegistry}
use discord_oidc.Jwk.{Jwk}

pub record Config : Type 0 where
  pub issuer : String
  pub discord_client_id : String
  pub discord_client_secret : String
  pub required_guild_id : String
  pub clients : ClientRegistry
  pub client_secrets : Dict String
  pub signing_key_id : String
  pub additional_public_jwks : List Jwk
  pub id_token_ttl_secs : ℤ

unfoldable pub discord_callback_url : Config → String
discord_callback_url cfg = String.◌++◌ cfg.issuer "/oauth/discord/callback"

unfoldable pub client_secret : Config → String → Option String
client_secret cfg id = Dict.get id cfg.client_secrets
