-- ===== src/Token/Denials.antt =====
-- The denials of `/token` (token.rs), and the caching of its responses.
use discord_oidc.Prelude.{
  ℕ, String, ◌≡◌, ◌≢◌, refl, Bool, true, false, Option, none, some, List, Result, ok, err, OnErr,
  OnErr->>=, OnErr-if, arith,
}
use discord_oidc.Prelude.Int.{ℤ}
use discord_oidc.Crates.{Crates}
use discord_oidc.Client.{ClientConfig}
use discord_oidc.Config.{Config}
use discord_oidc.Error.{OAuthErrorCode}
use discord_oidc.Code.{StoredAuthorizationCode, ExchangeCheck, ConsumeDeny}
use discord_oidc.Registry.{RegistryStoreError}
use discord_oidc.Resolver.{ClientResolver}
use discord_oidc.Response.{CoreResponse, json_body, redirect, html}
use discord_oidc.Store.{AuthorizationStore, StoreError}
use discord_oidc.Jwt.{IdTokenSigner, KeyError}
use discord_oidc.Params.{Params, single, value_or_none}
use discord_oidc.Prelude.Text.{is_empty_text, trim}
use discord_oidc.Util.{Entropy}
use discord_oidc.Token.{
  deny_client, json_error, check_grant_type, bounded_value, authenticate_client, resolved, verified,
  authenticate_basic, authenticate_public, decode_basic, parse_form, read_params, read_request,
  token_response, after_consume, exchange, handle_token,
}

-- A JSON response that must not be cached; a denial also has another status than 200.
abbrev pub IsNoStore : CoreResponse → Type 0
IsNoStore (json_body r) = r.no_store ≡ true
IsNoStore (redirect url) = ⊥
IsNoStore (html status body) = ⊥

abbrev pub IsDenial : CoreResponse → Type 0
IsDenial (json_body r) = (r.no_store ≡ true) × (r.status ≢ 200)
IsDenial (redirect url) = ⊥
IsDenial (html status body) = ⊥

IsNoStore-of_IsDenial : (x : CoreResponse) → IsDenial x → IsNoStore x
IsNoStore-of_IsDenial (json_body r) (h, k) = h
IsNoStore-of_IsDenial (redirect url) h = h
IsNoStore-of_IsDenial (html status body) h = h

pub json_error-IsDenial :
    (status : ℕ) (code : OAuthErrorCode) (description : Option String)
    (headers : List (String × String))
    → status ≢ 200
    → IsDenial (json_error status code description headers)
unfolding json_error
json_error-IsDenial status code description headers h = (refl, h)

resolved-OnErr : (r : Result (Option ClientConfig) RegistryStoreError) → OnErr IsDenial (resolved r)
unfolding resolved json_error
resolved-OnErr (ok (some client)) = tt
resolved-OnErr (ok none) = (refl, omega arith)
resolved-OnErr (err e) = (refl, omega arith)

verified-OnErr :
    (r : Result Bool RegistryStoreError) (client : ClientConfig)
    → OnErr IsDenial (verified r client)
unfolding verified json_error
verified-OnErr (ok true) client = tt
verified-OnErr (ok false) client = (refl, omega arith)
verified-OnErr (err e) client = (refl, omega arith)

basic-OnErr :
    (resolver : ClientResolver) (now : ℤ) (body : Option String)
    (decoded : Option (String × String))
    → OnErr IsDenial (authenticate_basic resolver now body decoded)
unfolding authenticate_basic json_error
basic-OnErr resolver now body none = (refl, omega arith)
basic-OnErr resolver now body (some (id, secret)) =
    OnErr-if IsDenial _ (err deny_client) _ (refl, omega arith)
      (OnErr->>= IsDenial (resolved (resolver.find_client id)) _
        (resolved-OnErr (resolver.find_client id))
        (λ client.
          OnErr-if IsDenial _ (err deny_client) _ (refl, omega arith)
            (verified-OnErr (resolver.verify_client_secret id secret now) client)))

public-OnErr :
    (resolver : ClientResolver) (body : Option String)
    → OnErr IsDenial (authenticate_public resolver body)
unfolding authenticate_public json_error
public-OnErr resolver none = (refl, omega arith)
public-OnErr resolver (some id) =
    OnErr->>= IsDenial (resolved (resolver.find_client id)) _
      (resolved-OnErr (resolver.find_client id))
      (λ client. OnErr-if IsDenial _ (err deny_client) (ok client) (refl, omega arith) tt)

grant_type-OnErr : (r : Result (Option String) (Unit {0})) → OnErr IsDenial (check_grant_type r)
unfolding check_grant_type json_error
grant_type-OnErr (ok (some t)) = ground arith
grant_type-OnErr (ok none) = (refl, omega arith)
grant_type-OnErr (err e) = (refl, omega arith)

value-OnErr :
    (r : Result (Option String) (Unit {0})) (limit : ℕ) (desc : String)
    → OnErr IsDenial (bounded_value r limit desc)
unfolding bounded_value json_error
value-OnErr (ok (some v)) limit desc = ground arith
value-OnErr (ok none) limit desc = (refl, omega arith)
value-OnErr (err e) limit desc = (refl, omega arith)

module _ ⦃c : Crates⦄ where
  client-OnErr :
      (params : Params) (auth : Option String) (resolver : ClientResolver) (now : ℤ)
      → OnErr IsDenial (authenticate_client params auth resolver now)
  unfolding authenticate_client json_error
  client-OnErr params none resolver now = public-OnErr resolver _
  client-OnErr params (some auth) resolver now =
      let body = value_or_none (single params "client_id") in
      OnErr-if IsDenial (is_empty_text (trim auth)) (err deny_client)
        (authenticate_basic resolver now body (decode_basic (trim auth))) (refl, omega arith)
        (basic-OnErr resolver now body (decode_basic (trim auth)))

  -- What is read once the form is parsed.
  chain-OnErr :
      (params : Params) (auth : Option String) (resolver : ClientResolver) (now : ℤ)
      → OnErr IsDenial (read_params params auth resolver now)
  unfolding read_params
  chain-OnErr params auth resolver now =
      OnErr->>= IsDenial (check_grant_type (single params "grant_type")) _
        (grant_type-OnErr (single params "grant_type"))
        (λ _.
          OnErr->>= IsDenial (authenticate_client params auth resolver now) _
            (client-OnErr params auth resolver now)
            (λ client.
              OnErr->>= IsDenial
                (bounded_value (single params "code") 256 "missing or invalid code") _
                (value-OnErr (single params "code") 256 "missing or invalid code")
                (λ code.
                  OnErr->>= IsDenial
                    (bounded_value (single params "redirect_uri") 2048
                      "missing or invalid redirect_uri")
                    _
                    (value-OnErr (single params "redirect_uri") 2048
                      "missing or invalid redirect_uri")
                    (λ uri.
                      OnErr->>= IsDenial
                        (bounded_value (single params "code_verifier") 128
                          "missing or invalid code_verifier")
                        _
                        (value-OnErr (single params "code_verifier") 128
                          "missing or invalid code_verifier")
                        (λ verifier. tt)))))

  pub read_request-OnErr :
      (form_body : String) (auth_header : Option String) (resolver : ClientResolver) (now : ℤ)
      → OnErr IsDenial (read_request form_body auth_header resolver now)
  unfolding read_request json_error
  read_request-OnErr form_body auth_header resolver now =
      ground (arith, chain-OnErr (parse_form form_body) auth_header resolver now)

module _ ⦃c : Crates⦄ {S : Type 0} (cfg : Config) (store : AuthorizationStore S)
    (resolver : ClientResolver) (signer : IdTokenSigner) (now : ℤ) where
  token_response-IsNoStore :
      (stored : StoredAuthorizationCode) (token : String) (r : Result String KeyError)
      → IsNoStore (token_response cfg stored token r)
  unfolding token_response json_error
  token_response-IsNoStore stored token (ok t) = refl
  token_response-IsNoStore stored token (err e) = refl

  after_consume-IsNoStore :
      (client : ClientConfig) (e : Entropy)
      (p : Result (Result StoredAuthorizationCode ConsumeDeny) StoreError × S)
      → IsNoStore (after_consume cfg store resolver signer now client e p).0
  unfolding after_consume json_error
  after_consume-IsNoStore client e (ok (ok x), s) = token_response-IsNoStore x _ _
  after_consume-IsNoStore client e (ok (err d), s) = refl
  after_consume-IsNoStore client e (err x, s) = refl

  exchange-IsNoStore :
      (r : Result (ClientConfig × String × ExchangeCheck) CoreResponse) (s : S) (e : Entropy)
      → OnErr IsDenial r
      → IsNoStore (exchange cfg store resolver signer now r s e).0
  unfolding exchange
  exchange-IsNoStore (ok (client, code, check)) s e h = after_consume-IsNoStore client e _
  exchange-IsNoStore (err x) s e h = IsNoStore-of_IsDenial x h

  -- Every response of `handle_token`, on every branch, is JSON that must not be cached; what the
  -- worker answers before it calls `handle_token` is not meant.
  pub handle_token-IsNoStore :
      (form_body : String) (auth_header : Option String) (s : S) (e : Entropy)
      → IsNoStore (handle_token cfg store resolver signer now form_body auth_header s e).0
  unfolding handle_token
  handle_token-IsNoStore form_body auth_header s e =
      exchange-IsNoStore (read_request form_body auth_header resolver now) s e
        (read_request-OnErr form_body auth_header resolver now)
