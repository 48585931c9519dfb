-- ===== src/Examples/Settings.antt =====
-- A configuration read from settings.
use discord_oidc.Prelude.{String, ◌≡◌, refl, none, some, List, [], ◌∷◌, Result, ok}
use discord_oidc.Prelude.Text.{as_bytes, contains_char, strip_prefix, trim_end_matches}
use discord_oidc.Json.{Value}
use discord_oidc.Client.{
  ClientConfig, build_registry, add_clients, validate_client, check_redirect_uris,
  is_valid_redirect_uri, check_secrets, check_covered,
}
use discord_oidc.Prelude.Numerals.{parse_i64}
use discord_oidc.Registry.{is_snowflake}
use discord_oidc.Config.{Config}
use discord_oidc.Config.Input.{ConfigInput, from_input}
use discord_oidc.Config.Valid.{IsValidConfig, from_input-IsValidConfig}
use discord_oidc.Examples.Sample.{sample_crates}
use discord_oidc.Examples.Data.{config, web_client}

abbrev settings : ConfigInput
settings = record {
  issuer_url = some "https://op.example/";
  discord_client_id = some "123456789012345679";
  discord_client_secret = some "discord-secret";
  required_guild_id = some "123456789012345678";
  clients_json = some "[]";
  client_secrets_json = none;
  signing_key_id = some "key";
  signing_private_key = some "pem";
  additional_public_jwks_json = none;
  id_token_ttl_seconds = some "600";
}

abbrev parse_clients : String → Result (List ClientConfig) String
parse_clients s = ok (web_client ∷ [])

abbrev parse_secrets : String → Result (List (String × String)) String
parse_secrets s = ok []

abbrev parse_values : String → Result (List Value) String
parse_values s = ok []

abbrev configured : Config
configured = record config { discord_client_id = "123456789012345679" }

accepted : from_input parse_clients parse_secrets parse_values settings ≡ ok configured
unfolding from_input build_registry add_clients validate_client check_redirect_uris
    is_valid_redirect_uri check_secrets check_covered is_snowflake parse_i64 sample_crates as_bytes
    strip_prefix contains_char trim_end_matches
accepted = refl

from_input-IsValidConfig_example : IsValidConfig settings configured
from_input-IsValidConfig_example =
    from_input-IsValidConfig parse_clients parse_secrets parse_values settings configured accepted
