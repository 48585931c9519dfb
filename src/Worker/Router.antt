-- ===== src/Worker/Router.antt =====
-- crates/discord-oidc-worker/src/lib.rs: the runtime, the translation of responses and the routes.
-- What the Workers runtime provides is a `Platform`.
use discord_oidc.Prelude.{
  ℕ, String, Bool, true, false, not, ◌&&◌, ◌||◌, Option, none, some, List, [], ◌∷◌, ◌++◌, Result,
  ok, err, is_some_and, ◌==◌, if◌then◌else◌,
}
use discord_oidc.Prelude.Int.{ℤ}
use discord_oidc.Prelude.Text.{contains_char, is_empty_text, starts_with, strip_prefix}
use discord_oidc.Crates.{Crates, Url}
use discord_oidc.Json.{Value, str, object}
use discord_oidc.Response.{CoreResponse, redirect, json_body, html, json, json_no_store}
use discord_oidc.Client.{ClientConfig}
use discord_oidc.Config.{Config}
use discord_oidc.Config.Input.{ConfigInput, ConfigError, from_input}
use discord_oidc.Jwk.{jwks_document}
use discord_oidc.Jwt.{IdTokenSigner, KeyError}
use discord_oidc.Discovery.{discovery_document}
use discord_oidc.Registry.{DynamicClientRegistry}
use discord_oidc.Resolver.{ClientResolver, registry_resolver}
use discord_oidc.Store.{AuthorizationStore}
use discord_oidc.Authorize.{handle_authorize}
use discord_oidc.Callback.{handle_callback}
use discord_oidc.Token.{handle_token}
use discord_oidc.Admin.{AdminRequest, authorize_admin, handle_admin_request}
use discord_oidc.Admin.Operations.{CreateClientRequest, UpdateClientRequest}
use discord_oidc.Util.{Entropy}
use discord_oidc.Worker.DiscordHttp.{Network, discord_http}
use discord_oidc.Worker.Storage.{WorkerError, worker_error}

pub data Method : Type 0 where
  get post put : Method
  other : String → Method

unfoldable pub method_name : Method → String
method_name get = "GET"
method_name post = "POST"
method_name put = "PUT"
method_name (other name) = name

abbrev pub is_get : Method → Bool
is_get get = true
is_get _ = false

abbrev pub is_post : Method → Bool
is_post post = true
is_post _ = false

pub record Request : Type 0 where
  pub method : Method
  pub path : String
  pub query : Option String
  pub content_type : Option String
  pub authorization : Option String
  pub text : Option String

-- A response of the platform, with the headers that are set on it.
pub data HttpResponse : Type 0 where
  redirected : Url → HttpResponse
  json_page : ℕ → List (String × String) → Value → HttpResponse
  html_page : ℕ → String → HttpResponse

-- The bindings of the environment and the calls to the platform.
pub record Platform (S R : Type 0) : Type 0 where
  pub var : String → Option String
  pub secret : String → Option String
  pub store : Option (AuthorizationStore S)
  pub registry : DynamicClientRegistry R
  pub import_key : String → String → Result IdTokenSigner KeyError
  pub network : Network
  pub parse_clients : String → Result (List ClientConfig) String
  pub parse_secrets : String → Result (List (String × String)) String
  pub parse_values : String → Result (List Value) String
  pub parse_create : String → Option CreateClientRequest
  pub parse_update : String → Option UpdateClientRequest

pub record Runtime : Type 0 where
  pub cfg : Config
  pub signer : IdTokenSigner

-- Why no runtime comes up. The program only logs it.
pub data StartError : Type 0 where
  bad_config : ConfigError → StartError
  bad_key : KeyError → StartError

-- `unwrap_or_default`
abbrev pub or_empty : Option String → String
or_empty none = ""
or_empty (some s) = s

unfoldable pub with_signer : Config → Result IdTokenSigner KeyError → Result Runtime StartError
with_signer cfg (ok signer) = ok (record { cfg = cfg; signer = signer })
with_signer cfg (err e) = err (bad_key e)

unfoldable pub cache_headers : Bool → List (String × String)
cache_headers true = ("Cache-Control", "no-store") ∷ ("Pragma", "no-cache") ∷ []
cache_headers false = []

module _ ⦃c : Crates⦄ where
  unfoldable pub to_response : CoreResponse → Result HttpResponse WorkerError
  unfolding cache_headers
  to_response (redirect location) = elim (c.url_parse location) [
    | none ↦ err (worker_error "bad redirect target")
    | some url ↦ ok (redirected url)
  ]
  to_response (json_body r) =
      ok (json_page r.status (cache_headers r.no_store ++ r.extra_headers) r.body)
  to_response (html status body) = ok (html_page status body)

  unfoldable pub json_response : ℕ → Value → Result HttpResponse WorkerError
  unfolding to_response
  json_response status body = to_response (json status body)

  -- `to_response` on what a handler answers.
  unfoldable pub answered {ℓ κ} :
      {A : Type ℓ} {B : Type κ} → CoreResponse × A × B → Result HttpResponse WorkerError × A × B
  unfolding to_response
  answered (response, a, b) = (to_response response, a, b)

abbrev pub error_value : String → Value
error_value code = object (("error", str code) ∷ [])

-- Whether a request to the admin API has its body read.
unfoldable pub needs_body : Method → String → Bool
needs_body post path = path == "/admin/clients"
needs_body put path =
    is_some_and (strip_prefix "/admin/clients/" path)
      (λ id. not (is_empty_text id) && not (contains_char b'/' id))
needs_body _ path = false

unfoldable pub is_admin_path : String → Bool
is_admin_path path = path == "/admin" || starts_with "/admin/" path

module _ ⦃c : Crates⦄ {S R : Type 0} (p : Platform S R) (now : ℤ) where
  unfoldable pub config_input : ConfigInput
  config_input = record {
    issuer_url = p.var "OIDC_ISSUER_URL";
    discord_client_id = p.var "DISCORD_CLIENT_ID";
    discord_client_secret = p.secret "DISCORD_CLIENT_SECRET";
    required_guild_id = p.var "DISCORD_REQUIRED_GUILD_ID";
    clients_json = p.var "OIDC_CLIENTS_JSON";
    client_secrets_json = p.secret "OIDC_CLIENT_SECRETS_JSON";
    signing_key_id = p.var "OIDC_SIGNING_KEY_ID";
    signing_private_key = p.secret "OIDC_SIGNING_PRIVATE_KEY";
    additional_public_jwks_json = p.var "OIDC_JWKS_ADDITIONAL_PUBLIC_KEYS";
    id_token_ttl_seconds = p.var "OIDC_ID_TOKEN_TTL_SECONDS";
  }

  unfoldable pub start : Result Config ConfigError → Result Runtime StartError
  unfolding with_signer
  start (err e) = err (bad_config e)
  start (ok cfg) =
      with_signer cfg
        (p.import_key (or_empty (p.secret "OIDC_SIGNING_PRIVATE_KEY")) cfg.signing_key_id)

  unfoldable pub load_runtime : Result Runtime StartError
  unfolding start config_input
  load_runtime = start (from_input p.parse_clients p.parse_secrets p.parse_values config_input)

  -- The request that the admin API sees: its body is read only where it is needed.
  unfoldable pub admin_request : Request → AdminRequest
  unfolding needs_body
  admin_request req = record {
    method = method_name req.method;
    path = req.path;
    body = if needs_body req.method req.path then some (or_empty req.text) else none;
    authorization = req.authorization;
  }

  -- What follows the authentication of an admin request.
  unfoldable pub admin_with :
      Result Runtime StartError
      → Request
      → R
      → Entropy
      → Result HttpResponse WorkerError × R × Entropy
  unfolding admin_request answered
  admin_with (err failure) req r e =
      (to_response (json_no_store 500 (error_value "server_error")), r, e)
  admin_with (ok rt) req r e = answered (
      handle_admin_request p.parse_create p.parse_update rt.cfg p.registry now
        (p.secret "OIDC_ADMIN_API_TOKEN") (admin_request req) r e)

  unfoldable pub route_admin : Request → R → Entropy → Result HttpResponse WorkerError × R × Entropy
  unfolding admin_with
  route_admin req r e =
      if not (authorize_admin req.authorization (p.secret "OIDC_ADMIN_API_TOKEN"))
      then (to_response (json_no_store 401 (error_value "unauthorized")), r, e)
      else admin_with load_runtime req r e

  -- `POST /token`, after the method and the path.
  unfoldable pub route_token :
      Runtime
      → AuthorizationStore S
      → ClientResolver
      → Request
      → S
      → Entropy
      → Result HttpResponse WorkerError × S × Entropy
  unfolding answered
  route_token rt store resolver req s e =
      if not (starts_with "application/x-www-form-urlencoded" (or_empty req.content_type))
      then (to_response (json_no_store 400 (error_value "invalid_request")), s, e)
      else answered (
          handle_token rt.cfg store resolver rt.signer now (or_empty req.text) req.authorization s
            e)

  unfoldable pub route_public :
      Runtime
      → AuthorizationStore S
      → ClientResolver
      → Request
      → S
      → Entropy
      → Result HttpResponse WorkerError × S × Entropy
  unfolding route_token answered
  route_public rt store resolver req s e =
      if is_get req.method && req.path == "/.well-known/openid-configuration"
      then (json_response 200 (discovery_document rt.cfg), s, e)
      else if is_get req.method && req.path == "/jwks.json"
      then (
        json_response 200 (jwks_document (rt.signer.public_jwk ∷ rt.cfg.additional_public_jwks)),
        s,
        e,
      )
      else if is_get req.method && req.path == "/authorize"
      then answered (handle_authorize rt.cfg store (or_empty req.query) resolver now s e)
      else if is_get req.method && req.path == "/oauth/discord/callback"
      then answered (
          handle_callback rt.cfg store resolver (discord_http p.network rt.cfg) now
            (or_empty req.query) s e)
      else if is_post req.method && req.path == "/token"
      then route_token rt store resolver req s e
      else if is_get req.method || is_post req.method
      then (json_response 404 (error_value "not_found"), s, e)
      else (json_response 405 (error_value "method_not_allowed"), s, e)

  -- The runtime first, then the binding of the store.
  unfoldable pub public_with :
      Result Runtime StartError
      → Option (AuthorizationStore S)
      → Request
      → S
      → R
      → Entropy
      → Result HttpResponse WorkerError × S × Entropy
  unfolding route_public
  public_with (err failure) store req s r e = (json_response 500 (error_value "server_error"), s, e)
  public_with (ok rt) none req s r e = (json_response 500 (error_value "server_error"), s, e)
  public_with (ok rt) (some store) req s r e =
      route_public rt store (registry_resolver rt.cfg p.registry r) req s e

  unfoldable pub route :
      Request → S → R → Entropy → Result HttpResponse WorkerError × S × R × Entropy
  unfolding is_admin_path route_admin public_with
  route req s r e =
      if is_admin_path req.path
      then (let out = route_admin req r e in (out.0, s, out.1, out.2))
      else (let out = public_with load_runtime p.store req s r e in (out.0, out.1, r, out.2))
