-- ===== src/Examples/Data.antt =====
-- One client, its dynamic registration, and one authorization under way.
use discord_oidc.Prelude.{◌%◌, String, none, some, [], ◌∷◌}
use discord_oidc.Prelude.Int.{pos}
use discord_oidc.Client.{ClientConfig, confidential, public, no_auth, client_secret_basic}
use discord_oidc.Config.{Config}
use discord_oidc.Transaction.{AuthorizationTransaction}
use discord_oidc.Code.{StoredAuthorizationCode, ExchangeCheck}
use discord_oidc.Registry.{DynamicClientRecord, ClientMetadata, active}
use discord_oidc.Util.{Entropy}

abbrev pub web_client : ClientConfig
web_client = record {
  client_id = "web";
  redirect_uris = "https://rp.example/cb" ∷ [];
  allowed_scopes = "openid" ∷ [];
  client_type = public;
  token_endpoint_auth_method = no_auth;
}

abbrev pub config : Config
config = record {
  issuer = "https://op.example";
  discord_client_id = "42";
  discord_client_secret = "discord-secret";
  required_guild_id = "123456789012345678";
  clients = record { clients = web_client ∷ [] };
  client_secrets = [];
  signing_key_id = "key";
  additional_public_jwks = [];
  id_token_ttl_secs = pos 600;
}

abbrev pub counter : Entropy
counter = record { bytes = λ n. n % 256; used = 0 }

abbrev pub verifier : String
verifier = "abcdefghijklmnopqrstuvwxyz0123456789-._~ABC"

-- The base64url of the first 32 bytes of the verifier, which is its sample digest.
abbrev pub challenge : String
challenge = "YWJjZGVmZ2hpamtsbW5vcHFyc3R1dnd4eXowMTIzNDU"

abbrev pub transaction : AuthorizationTransaction
transaction = record {
  id = "tx";
  oidc_client_id = "web";
  redirect_uri = "https://rp.example/cb";
  requested_scope = "openid";
  rp_state = some "st";
  nonce = some "n";
  code_challenge = challenge;
  discord_oauth_state = "up";
  created_at = pos 1000;
  expires_at = pos 1600;
}

abbrev pub stored_code : StoredAuthorizationCode
stored_code = record {
  code_hash = "h";
  client_id = "web";
  redirect_uri = "https://rp.example/cb";
  subject = "123456789012345678";
  scope = "openid";
  nonce = some "n";
  code_challenge = challenge;
  created_at = pos 1000;
  expires_at = pos 1060;
}

abbrev pub exchange_check : ExchangeCheck
exchange_check = record {
  client_id = "web";
  redirect_uri = "https://rp.example/cb";
  code_verifier = verifier;
}

abbrev pub metadata : ClientMetadata
metadata = record {
  display_name = "App";
  owner_discord_user_id = "123456789012345678";
  redirect_uris = "https://rp.example/cb" ∷ [];
}

abbrev pub dynamic_client : DynamicClientRecord
dynamic_client = record {
  client_id = "oji_AAECAwQFBgcICQoLDA0ODw";
  display_name = "App";
  owner_discord_user_id = "123456789012345678";
  redirect_uris = "https://rp.example/cb" ∷ [];
  client_type = confidential;
  token_endpoint_auth_method = client_secret_basic;
  allowed_scopes = "openid" ∷ [];
  status = active;
  current_secret_hash = some "h0";
  previous_secret_hash = none;
  previous_secret_valid_until = none;
  created_at = pos 1000;
  updated_at = pos 1000;
  disabled_at = none;
}
