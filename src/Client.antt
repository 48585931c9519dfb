-- ===== src/Client.antt =====
-- crates/oidc-core/src/client.rs: the static client registry and its validation.
pub mod Valid
pub mod Build
use Prim.Native.String
use discord_oidc.Prelude.{
  ℕ, String, len, Bool, true, false, not, ◌&&◌, ◌||◌, Option, none, some, List, [], ◌∷◌, ◌++◌,
  Result, ok, err, ◌>>=◌, ◌>>◌, any, all, contains, is_empty, is_some, is_some_and, ltb, ◌==◌,
  if◌then◌else◌,
}
use discord_oidc.Prelude.Text.{is_empty_text, contains_char}
use discord_oidc.Crates.{Crates}

abbrev pub supported_scopes : List String
supported_scopes = "openid" ∷ []

pub data ClientType : Type 0 where
  public confidential : ClientType

pub data TokenEndpointAuthMethod : Type 0 where
  no_auth client_secret_basic : TokenEndpointAuthMethod

abbrev pub is_public : ClientType → Bool
is_public public = true
is_public confidential = false

abbrev pub is_confidential : ClientType → Bool
is_confidential public = false
is_confidential confidential = true

abbrev pub is_no_auth : TokenEndpointAuthMethod → Bool
is_no_auth no_auth = true
is_no_auth client_secret_basic = false

abbrev pub is_basic : TokenEndpointAuthMethod → Bool
is_basic no_auth = false
is_basic client_secret_basic = true

pub record ClientConfig : Type 0 where
  pub client_id : String
  pub redirect_uris : List String
  pub allowed_scopes : List String
  pub client_type : ClientType
  pub token_endpoint_auth_method : TokenEndpointAuthMethod

pub record ClientRegistry : Type 0 where
  pub clients : List ClientConfig

-- The search of `iter().find`.
unfoldable pub find_in : String → List ClientConfig → Option ClientConfig
find_in id [] = none
find_in id (c ∷ cs) = if c.client_id == id then some c else find_in id cs

unfoldable pub find : ClientRegistry → String → Option ClientConfig
unfolding find_in
find r id = find_in id r.clients

pub data RegistryError : Type 0 where
  malformed_json : String → RegistryError
  invalid_client_id : String → RegistryError
  invalid_redirect_uri : String → String → RegistryError
  invalid_scopes : String → RegistryError
  auth_method_mismatch : String → RegistryError
  empty_registry : RegistryError
  secret_config : String → RegistryError

-- `matches!` on the pair of a client's type and its authentication method.
abbrev pub is_consistent : ClientType → TokenEndpointAuthMethod → Bool
is_consistent public no_auth = true
is_consistent confidential client_secret_basic = true
is_consistent _ _ = false

module _ ⦃c : Crates⦄ where
  unfoldable pub is_valid_redirect_uri : String → Bool
  is_valid_redirect_uri uri = elim (c.url_parse uri) [
    | none ↦ false
    | some url ↦
        if is_some url.fragment || contains_char b'*' uri
        then false
        else if url.scheme == "https"
        then true
        else if url.scheme == "http"
        then is_some_and url.host_str (λ h. h == "localhost" || h == "127.0.0.1" || h == "[::1]")
        else false
  ]

  -- The loop over the redirect URIs.
  unfoldable pub check_redirect_uris : String → List String → Result (Unit {0}) RegistryError
  check_redirect_uris id [] = ok tt
  check_redirect_uris id (uri ∷ uris) =
      if not (is_valid_redirect_uri uri)
      then err (invalid_redirect_uri id uri)
      else check_redirect_uris id uris

  unfoldable pub validate_client : ClientConfig → Result ClientConfig RegistryError
  validate_client raw =
      if is_empty_text raw.client_id || ltb 128 (len raw.client_id)
      then err (invalid_client_id raw.client_id)
      else if is_empty raw.redirect_uris
      then err (invalid_redirect_uri raw.client_id "")
      else do
        check_redirect_uris raw.client_id raw.redirect_uris
        if is_empty raw.allowed_scopes
              || not (any (λ s. s == "openid") raw.allowed_scopes)
              || any (λ s. not (contains supported_scopes s)) raw.allowed_scopes
            then err (invalid_scopes raw.client_id)
            else if not (is_consistent raw.client_type raw.token_endpoint_auth_method)
            then err (auth_method_mismatch raw.client_id)
            else ok raw

  -- The loop that validates and collects the clients.
  unfoldable pub add_clients :
      List ClientConfig → List ClientConfig → Result (List ClientConfig) RegistryError
  add_clients clients [] = ok clients
  add_clients clients (raw ∷ rest) = do
    client ← validate_client raw
    if any (λ (d : ClientConfig). d.client_id == client.client_id) clients
        then err (invalid_client_id (String.◌++◌ "duplicate client_id " client.client_id))
        else add_clients (clients ++ client ∷ []) rest

  -- One entry of the secrets against the clients.
  unfoldable pub check_secret :
      Option ClientConfig → String → String → Result (Unit {0}) RegistryError
  check_secret none id secret =
      err (secret_config (String.◌++◌ "secret defined for unknown or public client " id))
  check_secret (some d) id secret =
      if is_confidential d.client_type
      then if ltb (len secret) 16
        then err (
            secret_config
              (String.◌++◌ "secret for client " (String.◌++◌ id " is shorter than 16 characters")))
        else ok tt
      else err (secret_config (String.◌++◌ "secret defined for unknown or public client " id))

  unfoldable pub check_secrets :
      List ClientConfig → List (String × String) → Result (Unit {0}) RegistryError
  check_secrets clients [] = ok tt
  check_secrets clients ((id, secret) ∷ rest) = do
    check_secret (find_in id clients) id secret
    check_secrets clients rest

  -- Every confidential client has a secret.
  unfoldable pub check_covered :
      List (String × String) → List ClientConfig → Result (Unit {0}) RegistryError
  check_covered secrets [] = ok tt
  check_covered secrets (d ∷ rest) =
      if is_confidential d.client_type
        && not (any (λ (e : String × String). e.0 == d.client_id) secrets)
      then err (
          secret_config
            (String.◌++◌ "confidential client " (String.◌++◌ d.client_id " has no secret")))
      else check_covered secrets rest

-- The JSON of the clients and of the secrets is read by derived deserialisers.
module _ ⦃c : Crates⦄ (parse_clients : String → Result (List ClientConfig) String)
    (parse_secrets : String → Result (List (String × String)) String) where
  unfoldable pub malformed {ℓ} : {A : Type ℓ} → Result A String → Result A RegistryError
  malformed (ok a) = ok a
  malformed (err e) = err (malformed_json e)

  unfoldable pub read_secrets : Option String → Result (List (String × String)) RegistryError
  read_secrets none = ok []
  read_secrets (some s) = malformed (parse_secrets s)

  unfoldable pub build_registry :
      String → Option String → Result (ClientRegistry × List (String × String)) RegistryError
  unfolding malformed read_secrets
  build_registry clients_json secrets_json = do
    raw ← malformed (parse_clients clients_json)
    if is_empty raw then err empty_registry else do
      clients ← add_clients [] raw
      secrets ← read_secrets secrets_json
      check_secrets clients secrets
      check_covered secrets clients
      ok (record { clients = clients }, secrets)
