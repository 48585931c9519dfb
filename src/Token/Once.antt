-- ===== src/Token/Once.antt =====
-- Repeated and complete exchanges at `/token` (token.rs).
use discord_oidc.Prelude.{
  String, ◌≡◌, ◌≢◌, refl, sym, ◌∙◌, true, Option, none, some, [], ◌∷◌, Result, ok, err, arith,
}
use discord_oidc.Prelude.Int.{ℤ}
use discord_oidc.Crates.{Crates}
use discord_oidc.Json.{str, num, object}
use discord_oidc.Client.{ClientConfig}
use discord_oidc.Config.{Config}
use discord_oidc.Code.{StoredAuthorizationCode, ExchangeCheck, ConsumeDeny, hash_presented_code}
use discord_oidc.Resolver.{ClientResolver}
use discord_oidc.Response.{CoreResponse, JsonResponse, json_body}
use discord_oidc.Store.{AuthorizationStore, StoreError}
use discord_oidc.Store.Contract.{View, IsStore}
use discord_oidc.Store.SingleUse.{Calls, AnyKey, OtherThan, Calls-code_gone}
use discord_oidc.Jwt.{IdTokenSigner, claims_to_value, encode_claims}
use discord_oidc.Params.{single}
use discord_oidc.Util.{Entropy, random_token}
use discord_oidc.Token.{
  parse_form, read_request, claims_for, token_response, after_consume, exchange, handle_token,
}
use discord_oidc.Token.Exchange.{handle_token-IsIssuance}

module _ ⦃c : Crates⦄ {S : Type 0} (cfg : Config) (store : AuthorizationStore S)
    (resolver : ClientResolver) (signer : IdTokenSigner) where
  after_consume_state :
      (now : ℤ) (client : ClientConfig) (e : Entropy)
      (p : Result (Result StoredAuthorizationCode ConsumeDeny) StoreError × S)
      → (after_consume cfg store resolver signer now client e p).1 ≡ p.1
  unfolding after_consume
  after_consume_state now client e (ok (ok x), s) = refl
  after_consume_state now client e (ok (err d), s) = refl
  after_consume_state now client e (err x, s) = refl

  -- With an accepted request, a consumption that succeeds and a signer that signs, the response is
  -- the token response with status 200.
  pub handle_token_completes :
      (now : ℤ) (form_body : String) (auth_header : Option String) (s : S) (e : Entropy)
      (client : ClientConfig) (code : String) (check : ExchangeCheck)
      (stored : StoredAuthorizationCode) (id_token : String)
      → read_request form_body auth_header resolver now ≡ ok (client, code, check)
      → (store.consume_authorization_code (hash_presented_code code) check now s).0 ≡ ok (ok stored)
      → encode_claims signer (claims_to_value (claims_for cfg client stored (random_token e).0 now))
        ≡ ok id_token
      → (handle_token cfg store resolver signer now form_body auth_header s e).0
        ≡ json_body (record {
          status = 200;
          body = object (
              ("access_token", str (random_token e).0)
              ∷ ("token_type", str "Bearer")
              ∷ ("expires_in", num cfg.id_token_ttl_secs)
              ∷ ("scope", str stored.scope)
              ∷ ("id_token", str id_token)
              ∷ []);
          no_store = true;
          extra_headers = [];
        })
  unfolding handle_token exchange after_consume token_response
  handle_token_completes now form_body auth_header s e client code check stored id_token read used
        signed =
      rw (read, used, signed) refl

  module _ (view : View S) (laws : IsStore store view) where
    exchange-WellFormed :
        (now : ℤ) (r : Result (ClientConfig × String × ExchangeCheck) CoreResponse) (s : S)
        (e : Entropy)
        → view.WellFormed s
        → view.WellFormed (exchange cfg store resolver signer now r s e).1
    unfolding exchange
    exchange-WellFormed now (err x) s e w = w
    exchange-WellFormed now (ok (client, code, check)) s e w =
        rw
          (after_consume_state now client e
            (store.consume_authorization_code (hash_presented_code code) check now s))
          (laws.consume_wf (hash_presented_code code) check now s w)

    handle_token-WellFormed :
        (now : ℤ) (form_body : String) (auth_header : Option String) (s : S) (e : Entropy)
        → view.WellFormed s
        → view.WellFormed (handle_token cfg store resolver signer now form_body auth_header s e).1
    unfolding handle_token
    handle_token-WellFormed now form_body auth_header s e w =
        exchange-WellFormed now (read_request form_body auth_header resolver now) s e w

    -- Once a token request with a code has been answered with status 200, no later request with the
    -- same code is, at any time and with any credentials, whatever store calls of other requests
    -- come between, as long as none of them puts a code under the same hash. The configuration, the
    -- resolver and the signer are the same for both requests.
    pub handle_token_once :
        (now later : ℤ) (form_body later_body : String) (auth_header later_header : Option String)
        (s t : S) (e later_e : Entropy) (code : String) (j k : JsonResponse)
        → view.WellFormed s
        → single (parse_form form_body) "code" ≡ ok (some code)
        → single (parse_form later_body) "code" ≡ ok (some code)
        → (handle_token cfg store resolver signer now form_body auth_header s e).0 ≡ json_body j
        → j.status ≡ 200
        → Calls store view AnyKey
            (OtherThan (hash_presented_code code))
            (handle_token cfg store resolver signer now form_body auth_header s e).1
            t
        → (handle_token cfg store resolver signer later later_body later_header t later_e).0
          ≡ json_body k
        → k.status ≢ 200
    handle_token_once now later form_body later_body auth_header later_header s t e later_e code j k
          w given again answer status between answer' status' =
        let i =
          handle_token-IsIssuance cfg store resolver signer now view laws form_body auth_header s e
            j answer status in
        let i' =
          handle_token-IsIssuance cfg store resolver signer later view laws later_body later_header
            t later_e k answer' status' in
        let same : i.code ≡ code = ok_some i.code code (sym i.request.code_given ∙ given) in
        let same' : i'.code ≡ code = ok_some i'.code code (sym i'.request.code_given ∙ again) in
        let (_, gone) =
          Calls-code_gone store view laws between
            (handle_token-WellFormed now form_body auth_header s e w) (rw same at i.spent) in
        absurd (some_ne_none i'.stored (sym (rw same' at i'.held) ∙ gone))
      where
        ok_some :
            (x y : String)
            → ◌≡◌ {A = Result (Option String) (Unit {0})} (ok (some x)) (ok (some y))
            → x ≡ y
        ok_some x y h = ground arith

        some_ne_none :
            (x : StoredAuthorizationCode)
            → ◌≡◌ {A = Option StoredAuthorizationCode} (some x) none
            → ⊥
        some_ne_none x h = cc h
