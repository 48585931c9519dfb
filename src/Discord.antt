-- ===== src/Discord.antt =====
-- crates/oidc-core/src/discord.rs: the boundary to Discord's API.
use discord_oidc.Prelude.{ℕ, String, Bool, Option, List, [], ◌∷◌, Result, if◌then◌else◌}
use discord_oidc.Crates.{Crates}
use discord_oidc.Config.{Config, discord_callback_url}

abbrev pub authorize_url : String
authorize_url = "https://discord.com/oauth2/authorize"

abbrev pub discord_token_url : String
discord_token_url = "https://discord.com/api/v10/oauth2/token"

abbrev pub discord_api_base : String
discord_api_base = "https://discord.com/api/v10"

abbrev pub discord_scopes : String
discord_scopes = "identify guilds.members.read"

module _ ⦃c : Crates⦄ where
  unfoldable pub discord_authorize_url : Config → String → Bool → String
  discord_authorize_url cfg state consent = c.extend_pairs authorize_url (
      ("client_id", cfg.discord_client_id)
      ∷ ("redirect_uri", discord_callback_url cfg)
      ∷ ("response_type", "code")
      ∷ ("scope", discord_scopes)
      ∷ ("state", state)
      ∷ (if consent then ("prompt", "consent") ∷ [] else []))

pub record DiscordTokenResponse : Type 0 where
  pub access_token : String

pub record DiscordUser : Type 0 where
  pub id : String

pub record DiscordMember : Type 0 where
  pub roles : List String

pub data DiscordError : Type 0 where
  transport : DiscordError
  http_status : ℕ → DiscordError
  malformed_response : DiscordError

-- The trait `DiscordApi`. A handler makes each call at most once, so an answer is a function of the
-- arguments.
pub record DiscordApi : Type 0 where
  pub exchange_code : String → String → Result DiscordTokenResponse DiscordError
  pub fetch_user : String → Result DiscordUser DiscordError
  pub fetch_guild_member : String → String → Result (Option DiscordMember) DiscordError
