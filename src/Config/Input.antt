-- ===== src/Config/Input.antt =====
-- crates/oidc-core/src/config.rs: `Config::from_input`. The derived deserialisers of the three JSON
-- settings are parameters.
use discord_oidc.Prelude.{
  String, len, Bool, true, false, not, ◌&&◌, ◌||◌, Option, none, some, List, [], ◌∷◌, Result, ok,
  err, ◌>>=◌, ◌>>◌, all, contains, is_some, ltb, eqb, if◌then◌else◌, ◌==◌,
}
use discord_oidc.Prelude.Int.{ℤ, pos, leb_ℤ}
use discord_oidc.Prelude.Numerals.{parse_i64}
use discord_oidc.Prelude.Text.{
  as_bytes, is_ascii_alphanumeric, is_empty_text, is_slash, trim_end_matches,
}
use discord_oidc.Prelude.Dict
use discord_oidc.Prelude.Dict.{Dict}
use discord_oidc.Crates.{Crates, Url}
use discord_oidc.Json.{Value}
use discord_oidc.Client.{ClientConfig, ClientRegistry, RegistryError, build_registry}
use discord_oidc.Jwk.{Jwk, JwkError, validate_public}
use discord_oidc.Jwk
use discord_oidc.Registry.{is_snowflake}
use discord_oidc.Config.{Config}

abbrev pub default_id_token_ttl_secs : ℤ
default_id_token_ttl_secs = pos 900

pub record ConfigInput : Type 0 where
  pub issuer_url : Option String
  pub discord_client_id : Option String
  pub discord_client_secret : Option String
  pub required_guild_id : Option String
  pub clients_json : Option String
  pub client_secrets_json : Option String
  pub signing_key_id : Option String
  pub signing_private_key : Option String
  pub additional_public_jwks_json : Option String
  pub id_token_ttl_seconds : Option String

pub data ConfigError : Type 0 where
  missing : String → ConfigError
  invalid_issuer : String → ConfigError
  invalid_snowflake : String → ConfigError
  invalid_key_id : ConfigError
  registry_error : RegistryError → ConfigError
  jwk_error : JwkError → ConfigError
  invalid_id_token_ttl : ConfigError

unfoldable pub required : Option String → String → Result String ConfigError
required none name = err (missing name)
required (some v) name = if not (is_empty_text v) then ok v else err (missing name)

-- `if !test { return Err(e) }`
abbrev pub ensure : Bool → ConfigError → Result (Unit {0}) ConfigError
ensure true e = ok tt
ensure false e = err e

unfoldable pub is_key_id : String → Bool
is_key_id id = not (
    is_empty_text id
    || ltb 64 (len id)
    || not (
        all (λ b. is_ascii_alphanumeric b || eqb b b'.' || eqb b b'_' || eqb b b'-') (as_bytes id)))

unfoldable pub is_origin : Url → Bool
is_origin url = not (
    not (url.scheme == "https")
    || not (is_empty_text url.username)
    || is_some url.password
    || is_some url.query
    || is_some url.fragment
    || not (is_some url.host_str)
    || not (url.path == "/"))

module _ ⦃c : Crates⦄ where
  unfoldable pub validate_issuer : String → Result String ConfigError
  unfolding is_origin
  validate_issuer raw = elim (c.url_parse raw) [
    | none ↦ err (invalid_issuer raw)
    | some url ↦
        if not (is_origin url) then err (invalid_issuer raw) else ok (trim_end_matches is_slash raw)
  ]

  abbrev pub as_key : Result Jwk JwkError → Result Jwk ConfigError
  as_key (ok k) = ok k
  as_key (err e) = err (jwk_error e)

  -- `seen_kids.insert(…)`, for a key that has an id.
  unfoldable pub see_kid : List String → Option String → Result (List String) ConfigError
  see_kid seen none = ok seen
  see_kid seen (some kid) =
      if contains seen kid then err (jwk_error (Jwk.duplicate_key_id kid)) else ok (kid ∷ seen)

  -- The loop over the retired keys.
  unfoldable pub read_keys : List String → List Value → Result (List Jwk) ConfigError
  unfolding see_kid
  read_keys seen [] = ok []
  read_keys seen (v ∷ vs) = do
    key ← as_key (validate_public v)
    seen' ← see_kid seen key.kid
    keys ← read_keys seen' vs
    ok (key ∷ keys)

  abbrev pub as_values : Result (List Value) String → Result (List Value) ConfigError
  as_values (ok vs) = ok vs
  as_values (err e) = err (jwk_error (Jwk.malformed e))

  unfoldable pub read_jwks :
      (String → Result (List Value) String) → String → Option String → Result (List Jwk) ConfigError
  unfolding read_keys
  read_jwks parse signing_key_id none = ok []
  read_jwks parse signing_key_id (some json) = do
    raw ← as_values (parse json)
    read_keys (signing_key_id ∷ []) raw

abbrev pub or_invalid_ttl : Option ℤ → Result ℤ ConfigError
or_invalid_ttl none = err invalid_id_token_ttl
or_invalid_ttl (some ttl) =
    if not (leb_ℤ (pos 60) ttl && leb_ℤ ttl (pos 3600)) then err invalid_id_token_ttl else ok ttl

unfoldable pub read_ttl : Option String → Result ℤ ConfigError
read_ttl none = ok default_id_token_ttl_secs
read_ttl (some s) = or_invalid_ttl (parse_i64 s)

-- `into_iter().collect()` into a map.
unfoldable pub collect : Dict String → List (String × String) → Dict String
collect m [] = m
collect m ((k, v) ∷ entries) = collect (Dict.insert k v m) entries

abbrev pub as_registry {ℓ} : {A : Type ℓ} → Result A RegistryError → Result A ConfigError
as_registry (ok a) = ok a
as_registry (err e) = err (registry_error e)

-- The settings in the order in which they are read: the issuer, the Discord application with its
-- guild, and the signing key.
module _ ⦃c : Crates⦄ where
  unfoldable pub read_issuer : ConfigInput → Result String ConfigError
  unfolding required validate_issuer
  read_issuer input = do
    issuer_raw ← required input.issuer_url "OIDC_ISSUER_URL"
    validate_issuer issuer_raw

unfoldable pub read_snowflake : Option String → String → Result String ConfigError
unfolding required
read_snowflake value name = do
  id ← required value name
  ensure (is_snowflake id) (invalid_snowflake name)
  ok id

unfoldable pub read_discord_secret : ConfigInput → Result String ConfigError
unfolding required
read_discord_secret input = do
  secret ← required input.discord_client_secret "DISCORD_CLIENT_SECRET"
  ensure (not (is_empty_text secret)) (missing "DISCORD_CLIENT_SECRET")
  ok secret

unfoldable pub read_signing_key_id : ConfigInput → Result String ConfigError
unfolding required is_key_id
read_signing_key_id input = do
  id ← required input.signing_key_id "OIDC_SIGNING_KEY_ID"
  ensure (is_key_id id) invalid_key_id
  ok id

module _ ⦃c : Crates⦄ (parse_clients : String → Result (List ClientConfig) String)
    (parse_secrets : String → Result (List (String × String)) String) where
  unfoldable pub read_clients :
      ConfigInput → Result (ClientRegistry × List (String × String)) ConfigError
  unfolding required
  read_clients input = do
    clients_json ← required input.clients_json "OIDC_CLIENTS_JSON"
    as_registry (build_registry parse_clients parse_secrets clients_json input.client_secrets_json)

module _ ⦃c : Crates⦄ (parse_clients : String → Result (List ClientConfig) String)
    (parse_secrets : String → Result (List (String × String)) String)
    (parse_values : String → Result (List Value) String) where
  unfoldable pub from_input : ConfigInput → Result Config ConfigError
  unfolding read_issuer read_snowflake read_discord_secret read_signing_key_id required read_clients
      read_jwks read_ttl collect
  from_input input = do
    issuer ← read_issuer input
    discord_client_id ← read_snowflake input.discord_client_id "DISCORD_CLIENT_ID"
    required_guild_id ← read_snowflake input.required_guild_id "DISCORD_REQUIRED_GUILD_ID"
    discord_client_secret ← read_discord_secret input
    signing_key_id ← read_signing_key_id input
    signing_private_key ← required input.signing_private_key "OIDC_SIGNING_PRIVATE_KEY"
    (clients, secrets) ← read_clients parse_clients parse_secrets input
    keys ← read_jwks parse_values signing_key_id input.additional_public_jwks_json
    ttl ← read_ttl input.id_token_ttl_seconds
    ok (record {
      issuer = issuer;
      discord_client_id = discord_client_id;
      discord_client_secret = discord_client_secret;
      required_guild_id = required_guild_id;
      clients = clients;
      client_secrets = collect Dict.empty secrets;
      signing_key_id = signing_key_id;
      additional_public_jwks = keys;
      id_token_ttl_secs = ttl;
    })
