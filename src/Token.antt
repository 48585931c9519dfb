-- ===== src/Token.antt =====
-- crates/oidc-core/src/token.rs: `/token`. The checks before the store is touched are
-- `read_request`; `after_consume` is what follows on the store's answer.
pub mod Clients
pub mod Denials
pub mod Exchange
pub mod Once
use Prim.Native.String
use discord_oidc.Prelude.{
  ℕ, String, len, Bool, true, false, not, ◌&&◌, ◌||◌, Option, none, some, List, [], ◌∷◌, Result, ok,
  err, ◌>>=◌, ◌>>◌, any, length, is_some_and, ltb, leb, ◌==◌, if◌then◌else◌,
}
use discord_oidc.Prelude.Text.{
  as_bytes, is_empty_text, trim, strip_prefix, split_once, replace, from_utf8,
}
use discord_oidc.Prelude.Int.{ℤ, add_i64}
use discord_oidc.Prelude.Dict
use discord_oidc.Crates.{Crates}
use discord_oidc.Json.{Value, str, num, object}
use discord_oidc.Error.{
  OAuthErrorCode, invalid_client, invalid_grant, unsupported_grant_type, server_error,
  error_body_to_value,
}
use discord_oidc.Error
use discord_oidc.Client.{ClientConfig, is_public, is_confidential, is_no_auth, is_basic}
use discord_oidc.Config.{Config}
use discord_oidc.Code.{StoredAuthorizationCode, ExchangeCheck, ConsumeDeny, hash_presented_code}
use discord_oidc.Registry.{RegistryStoreError}
use discord_oidc.Resolver.{ClientResolver}
use discord_oidc.Response.{CoreResponse, json_body}
use discord_oidc.Store.{AuthorizationStore, StoreError}
use discord_oidc.Jwt.{
  IdTokenClaims, IdTokenSigner, KeyError, claims_to_value, at_hash_of, encode_claims,
}
use discord_oidc.Params.{Params, group, single, value_or_none}
use discord_oidc.Util.{Entropy, random_token}

abbrev pub max_token_body_len : ℕ
max_token_body_len = 8192

unfoldable pub json_error :
    ℕ → OAuthErrorCode → Option String → List (String × String) → CoreResponse
json_error status error_code description extra_headers = json_body (record {
  status = status;
  body = error_body_to_value (record { error = error_code; error_description = description });
  no_store = true;
  extra_headers = extra_headers;
})

abbrev pub www_authenticate_basic : String
www_authenticate_basic = "Basic realm=\"discord-oidc\""

abbrev pub deny_client : CoreResponse
deny_client =
    json_error 401 invalid_client (some "client authentication failed")
      (("WWW-Authenticate", www_authenticate_basic) ∷ [])

abbrev pub deny_request : String → CoreResponse
deny_request desc = json_error 400 Error.invalid_request (some desc) []

abbrev pub deny_grant : CoreResponse
deny_grant = json_error 400 invalid_grant (some "authorization grant is invalid or expired") []

abbrev pub failure : CoreResponse
failure = json_error 500 server_error none []

module _ ⦃c : Crates⦄ where
  unfoldable pub parse_form : String → Params
  parse_form body = group (c.form_parse (as_bytes body)) Dict.empty

  unfoldable pub form_decode_part : String → Option String
  form_decode_part s = c.percent_decode_utf8 (as_bytes (replace b'+' " " s))

  abbrev pub both : Option String → Option String → Option (String × String)
  both none o = none
  both (some a) none = none
  both (some a) (some b) = some (a, b)

  unfoldable pub decode_basic : String → Option (String × String)
  unfolding form_decode_part
  decode_basic auth = elim (strip_prefix "Basic " auth) [
    | none ↦ none
    | some encoded ↦ elim (c.standard_decode (trim encoded)) [
      | none ↦ none
      | some decoded ↦ elim (from_utf8 decoded) [
        | none ↦ none
        | some text ↦ elim (split_once b':' text) [
          | none ↦ none
          | some (id, secret) ↦ both (form_decode_part id) (form_decode_part secret)
        ]
      ]
    ]
  ]

-- The client that is looked up, or the response.
unfoldable pub resolved :
    Result (Option ClientConfig) RegistryStoreError → Result ClientConfig CoreResponse
unfolding json_error
resolved (ok (some client)) = ok client
resolved (ok none) = err deny_client
resolved (err _) = err failure

unfoldable pub verified :
    Result Bool RegistryStoreError → ClientConfig → Result ClientConfig CoreResponse
unfolding json_error
verified (ok true) client = ok client
verified (ok false) client = err deny_client
verified (err _) client = err failure

-- The branch with a `Basic` header, after its decoding.
unfoldable pub authenticate_basic :
    ClientResolver → ℤ → Option String → Option (String × String) → Result ClientConfig CoreResponse
unfolding resolved verified json_error
authenticate_basic resolver now body_client_id none = err deny_client
authenticate_basic resolver now body_client_id (some (client_id, secret)) =
    if is_some_and body_client_id (λ id. not (id == client_id)) then err deny_client else do
      client ← resolved (resolver.find_client client_id)
      if not (is_confidential client.client_type)
            || not (is_basic client.token_endpoint_auth_method)
          then err deny_client
          else verified (resolver.verify_client_secret client_id secret now) client

-- The branch without a header.
unfoldable pub authenticate_public :
    ClientResolver → Option String → Result ClientConfig CoreResponse
unfolding resolved json_error
authenticate_public resolver none = err deny_client
authenticate_public resolver (some client_id) = do
  client ← resolved (resolver.find_client client_id)
  if not (is_public client.client_type) || not (is_no_auth client.token_endpoint_auth_method)
      then err deny_client
      else ok client

module _ ⦃c : Crates⦄ where
  unfoldable pub authenticate_client :
      Params → Option String → ClientResolver → ℤ → Result ClientConfig CoreResponse
  unfolding authenticate_basic authenticate_public decode_basic json_error
  authenticate_client params none resolver now =
      authenticate_public resolver (value_or_none (single params "client_id"))
  authenticate_client params (some auth) resolver now =
      if is_empty_text (trim auth)
      then err deny_client
      else authenticate_basic resolver now (value_or_none (single params "client_id"))
          (decode_basic (trim auth))

-- `params.values().any(|v| v.len() > 1)`
abbrev pub any_duplicated : Params → Bool
any_duplicated params = any (λ vs. ltb 1 (length vs)) (Dict.values params)

unfoldable pub check_grant_type : Result (Option String) (Unit {0}) → Result (Unit {0}) CoreResponse
unfolding json_error
check_grant_type (ok (some t)) =
    if t == "authorization_code"
    then ok tt
    else err (json_error 400 unsupported_grant_type (some "unsupported grant_type") [])
check_grant_type (ok none) = err (deny_request "invalid grant_type")
check_grant_type (err _) = err (deny_request "invalid grant_type")

-- A single value of one to `limit` bytes.
unfoldable pub bounded_value :
    Result (Option String) (Unit {0}) → ℕ → String → Result String CoreResponse
unfolding json_error
bounded_value (ok (some v)) limit desc =
    if not (is_empty_text v) && leb (len v) limit then ok v else err (deny_request desc)
bounded_value (ok none) limit desc = err (deny_request desc)
bounded_value (err _) limit desc = err (deny_request desc)

module _ ⦃c : Crates⦄ where
  -- The client, the presented code and what the exchange is checked against.
  unfoldable pub read_params :
      Params
      → Option String
      → ClientResolver
      → ℤ
      → Result (ClientConfig × String × ExchangeCheck) CoreResponse
  unfolding check_grant_type bounded_value authenticate_client json_error
  read_params params auth_header resolver now = do
    check_grant_type (single params "grant_type")
    client ← authenticate_client params auth_header resolver now
    code ← bounded_value (single params "code") 256 "missing or invalid code"
    redirect_uri ←
        bounded_value (single params "redirect_uri") 2048 "missing or invalid redirect_uri"
    code_verifier ←
        bounded_value (single params "code_verifier") 128 "missing or invalid code_verifier"
    ok (
      client,
      code,
      record {
        client_id = client.client_id;
        redirect_uri = redirect_uri;
        code_verifier = code_verifier;
      },
    )

  unfoldable pub read_request :
      String
      → Option String
      → ClientResolver
      → ℤ
      → Result (ClientConfig × String × ExchangeCheck) CoreResponse
  unfolding parse_form read_params json_error
  read_request form_body auth_header resolver now =
      if ltb max_token_body_len (len form_body)
      then err (deny_request "request body too large")
      else let params = parse_form form_body in
        if any_duplicated params
        then err (deny_request "duplicated parameter")
        else read_params params auth_header resolver now

  abbrev pub claims_for :
      Config → ClientConfig → StoredAuthorizationCode → String → ℤ → IdTokenClaims
  claims_for cfg client stored access_token now = record {
    iss = cfg.issuer;
    sub = stored.subject;
    aud = client.client_id;
    iat = now;
    exp = add_i64 now cfg.id_token_ttl_secs;
    nonce = stored.nonce;
    at_hash = some (at_hash_of access_token);
  }

  unfoldable pub token_response :
      Config → StoredAuthorizationCode → String → Result String KeyError → CoreResponse
  unfolding json_error
  token_response cfg stored access_token (err _) = failure
  token_response cfg stored access_token (ok id_token) = json_body (record {
    status = 200;
    body = object (
        ("access_token", str access_token)
        ∷ ("token_type", str "Bearer")
        ∷ ("expires_in", num cfg.id_token_ttl_secs)
        ∷ ("scope", str stored.scope)
        ∷ ("id_token", str id_token)
        ∷ []);
    no_store = true;
    extra_headers = [];
  })

module _ ⦃c : Crates⦄ {S : Type 0} (cfg : Config) (store : AuthorizationStore S)
    (resolver : ClientResolver) (signer : IdTokenSigner) (now : ℤ) where
  unfoldable pub after_consume :
      ClientConfig
      → Entropy
      → Result (Result StoredAuthorizationCode ConsumeDeny) StoreError × S
      → CoreResponse × S × Entropy
  unfolding token_response json_error
  after_consume client e (ok (ok stored), s) =
      let (access_token, e') = random_token e in
      (
        token_response cfg stored access_token (
            encode_claims signer (claims_to_value (claims_for cfg client stored access_token now))),
        s,
        e',
      )
  after_consume client e (ok (err _), s) = (deny_grant, s, e)
  after_consume client e (err _, s) = (failure, s, e)

  unfoldable pub exchange :
      Result (ClientConfig × String × ExchangeCheck) CoreResponse
      → S
      → Entropy
      → CoreResponse × S × Entropy
  unfolding after_consume
  exchange (err response) s e = (response, s, e)
  exchange (ok (client, code, check)) s e =
      after_consume client e
        (store.consume_authorization_code (hash_presented_code code) check now s)

  unfoldable pub handle_token : String → Option String → S → Entropy → CoreResponse × S × Entropy
  unfolding exchange read_request
  handle_token form_body auth_header s e =
      exchange (read_request form_body auth_header resolver now) s e
