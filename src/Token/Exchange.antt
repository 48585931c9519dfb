-- ===== src/Token/Exchange.antt =====
-- When `/token` issues tokens, and what they carry.
use discord_oidc.Prelude.{
  ℕ, String, len, ◌≤◌, ◌≡◌, refl, sym, ap, OnErr, false, Option, none, some, [], ◌∷◌, ◌++◌, Result,
  ok, err, >>=-eq-ok, ltb, eq_iff, arith,
}
use discord_oidc.Prelude.Int.{ℤ, add_i64}
use discord_oidc.Crates.{Crates}
use discord_oidc.Json.{Value, null, str, num, object, optional}
use discord_oidc.Client.{ClientConfig}
use discord_oidc.Config.{Config}
use discord_oidc.Code.{StoredAuthorizationCode, ExchangeCheck, ConsumeDeny, hash_presented_code}
use discord_oidc.Code.Exchange.{IsBound}
use discord_oidc.Resolver.{ClientResolver}
use discord_oidc.Response.{CoreResponse, JsonResponse, json_body, redirect, html}
use discord_oidc.Store.{AuthorizationStore, StoreError}
use discord_oidc.Store.Contract.{View, IsStore}
use discord_oidc.Jwt.{IdTokenSigner, KeyError, at_hash_of, claims_to_value, encode_claims}
use discord_oidc.Params.{single}
use discord_oidc.Util.{Entropy, random_token}
use discord_oidc.Token.{
  json_error, any_duplicated, check_grant_type, bounded_value, authenticate_client, parse_form,
  read_params, read_request, claims_for, token_response, after_consume, exchange, handle_token,
}
use discord_oidc.Token.Denials.{IsDenial, read_request-OnErr}
use discord_oidc.Token.Clients.{IsAuthenticated, authenticate_client_iff}

module _ ⦃c : Crates⦄ (form_body : String) (auth_header : Option String) (resolver : ClientResolver)
    (now : ℤ) where
  -- What a request that reaches the store satisfies.
  pub record IsRequest (client : ClientConfig) (code : String) (check : ExchangeCheck)
      : Type 0 where
    pub size : len form_body ≤ 8192
    pub undoubled : any_duplicated (parse_form form_body) ≡ false
    pub grant_type : single (parse_form form_body) "grant_type" ≡ ok (some "authorization_code")
    pub authenticated : IsAuthenticated (parse_form form_body) resolver now auth_header client
    pub code_given : single (parse_form form_body) "code" ≡ ok (some code)
    pub code_short : len code ≤ 256
    pub uri_given : single (parse_form form_body) "redirect_uri" ≡ ok (some check.redirect_uri)
    pub verifier_given :
        single (parse_form form_body) "code_verifier" ≡ ok (some check.code_verifier)
    pub own_client : check.client_id ≡ client.client_id

  check_grant_type_sound :
      (r : Result (Option String) (Unit {0})) (u : Unit {0})
      → check_grant_type r ≡ ok u
      → r ≡ ok (some "authorization_code")
  unfolding check_grant_type
  check_grant_type_sound (ok (some t)) u e = ground (arith, eq_iff t "authorization_code")
  check_grant_type_sound (ok none) u e = absurd (ground arith)
  check_grant_type_sound (err x) u e = absurd (ground arith)

  bounded_value_sound :
      (r : Result (Option String) (Unit {0})) (limit : ℕ) (desc v : String)
      → bounded_value r limit desc ≡ ok v
      → (r ≡ ok (some v)) × (len v ≤ limit)
  unfolding bounded_value
  bounded_value_sound (ok (some w)) limit desc v e = ground arith
  bounded_value_sound (ok none) limit desc v e = absurd (ground arith)
  bounded_value_sound (err x) limit desc v e = absurd (ground arith)

  pub read_request-IsRequest :
      (client : ClientConfig) (code : String) (check : ExchangeCheck)
      → read_request form_body auth_header resolver now ≡ ok (client, code, check)
      → IsRequest client code check
  unfolding read_request read_params
  read_request-IsRequest client code check e =
      let fits : ltb 8192 (len form_body) ≡ false = ground arith in
      let once : any_duplicated (parse_form form_body) ≡ false = ground arith in
      let (u, typed, e₁) =
        >>=-eq-ok (check_grant_type (single (parse_form form_body) "grant_type")) _
          (rw (fits, once) at e) in
      let (client', known, e₂) =
        >>=-eq-ok (authenticate_client (parse_form form_body) auth_header resolver now) _ e₁ in
      let (code', coded, e₃) =
        >>=-eq-ok
          (bounded_value (single (parse_form form_body) "code") 256 "missing or invalid code") _
          e₂ in
      let (uri, addressed, e₄) =
        >>=-eq-ok
          (bounded_value (single (parse_form form_body) "redirect_uri") 2048
            "missing or invalid redirect_uri")
          _ e₃ in
      let (verifier, proved, e₅) =
        >>=-eq-ok
          (bounded_value (single (parse_form form_body) "code_verifier") 128
            "missing or invalid code_verifier")
          _ e₄ in
      let same : client' ≡ client = ground arith in
      let same_code : code' ≡ code = ground arith in
      let same_uri : uri ≡ check.redirect_uri = ground arith in
      let same_verifier : verifier ≡ check.code_verifier = ground arith in
      record {
        size = ground arith;
        undoubled = once;
        grant_type = check_grant_type_sound _ u typed;
        authenticated = rw same at (
            (authenticate_client_iff (parse_form form_body) resolver now auth_header client').0
              known);
        code_given =
            rw same_code at
              ((bounded_value_sound (single (parse_form form_body) "code") 256 _ code' coded).0);
        code_short =
            rw same_code at
              ((bounded_value_sound (single (parse_form form_body) "code") 256 _ code' coded).1);
        uri_given = rw same_uri at (
            (bounded_value_sound (single (parse_form form_body) "redirect_uri") 2048 _ uri
              addressed).0);
        verifier_given = rw same_verifier at (
            (bounded_value_sound (single (parse_form form_body) "code_verifier") 128 _ verifier
              proved).0);
        own_client = ground arith;
      }

module _ ⦃c : Crates⦄ {S : Type 0} (cfg : Config) (store : AuthorizationStore S)
    (resolver : ClientResolver) (signer : IdTokenSigner) (now : ℤ) (view : View S)
    (laws : IsStore store view) (form_body : String) (auth_header : Option String) where
  -- What tokens rest on: an authenticated request, and a code that was held, was bound to the
  -- request and is spent.
  pub record IsIssuance (s : S) (e : Entropy) (t : S) (body : Value) : Type 0 where
    pub client : ClientConfig
    pub code : String
    pub check : ExchangeCheck
    pub stored : StoredAuthorizationCode
    pub id_token : String
    pub request : IsRequest form_body auth_header resolver now client code check
    pub held : view.code_at s (hash_presented_code code) ≡ some stored
    pub bound : IsBound stored check now
    pub spent : view.code_at t (hash_presented_code code) ≡ none
    pub signed :
        encode_claims signer (
          object (
            ("iss", str cfg.issuer)
            ∷ ("sub", str stored.subject)
            ∷ ("aud", str client.client_id)
            ∷ ("iat", num now)
            ∷ ("exp", num (add_i64 now cfg.id_token_ttl_secs))
            ∷ (optional "nonce" str stored.nonce
                ++ (("at_hash", str (at_hash_of (random_token e).0)) ∷ []))))
        ≡ ok id_token
    pub body_of :
        body
        ≡ object (
            ("access_token", str (random_token e).0)
            ∷ ("token_type", str "Bearer")
            ∷ ("expires_in", num cfg.id_token_ttl_secs)
            ∷ ("scope", str stored.scope)
            ∷ ("id_token", str id_token)
            ∷ [])

  token_response_sound :
      (stored : StoredAuthorizationCode) (token : String) (r : Result String KeyError)
      (j : JsonResponse)
      → token_response cfg stored token r ≡ json_body j
      → j.status ≡ 200
      → (id_token : String) × (r ≡ ok id_token)
        × (j.body
            ≡ object (
                ("access_token", str token)
                ∷ ("token_type", str "Bearer")
                ∷ ("expires_in", num cfg.id_token_ttl_secs)
                ∷ ("scope", str stored.scope)
                ∷ ("id_token", str id_token)
                ∷ []))
  unfolding token_response json_error
  token_response_sound stored token (ok t) j e status = (t, refl, sym (ap body_or_null e))
    where
      body_or_null : CoreResponse → Value
      body_or_null (json_body x) = x.body
      body_or_null (redirect url) = null
      body_or_null (html n body) = null
  token_response_sound stored token (err x) j e status = absurd (ground arith)

  after_consume_sound :
      (client : ClientConfig) (code : String) (check : ExchangeCheck) (s : S) (e : Entropy)
      (p : Result (Result StoredAuthorizationCode ConsumeDeny) StoreError × S) (j : JsonResponse)
      → IsRequest form_body auth_header resolver now client code check
      → store.consume_authorization_code (hash_presented_code code) check now s ≡ p
      → (after_consume cfg store resolver signer now client e p).0 ≡ json_body j
      → j.status ≡ 200
      → IsIssuance s e (after_consume cfg store resolver signer now client e p).1 j.body
  unfolding after_consume json_error claims_to_value
  after_consume_sound client code check s e (ok (ok stored), t) j request same answer status =
      let (id_token, signed, body) =
        token_response_sound stored (random_token e).0
          (encode_claims signer
            (claims_to_value (claims_for cfg client stored (random_token e).0 now)))
          j answer status in
      let (held, bound, spent) =
        laws.consume_ok (hash_presented_code code) check now s stored (ap (λ q. q.0) same) in
      record {
        client = client;
        code = code;
        check = check;
        stored = stored;
        id_token = id_token;
        request = request;
        held = held;
        bound = bound;
        spent = rw (← ap (λ q. q.1) same) spent;
        signed = signed;
        body_of = body;
      }
  after_consume_sound client code check s e (ok (err d), t) j request same answer status =
      absurd (ground arith)
  after_consume_sound client code check s e (err x, t) j request same answer status =
      absurd (ground arith)

  exchange_sound :
      (r : Result (ClientConfig × String × ExchangeCheck) CoreResponse) (s : S) (e : Entropy)
      (j : JsonResponse)
      → read_request form_body auth_header resolver now ≡ r
      → OnErr IsDenial r
      → (exchange cfg store resolver signer now r s e).0 ≡ json_body j
      → j.status ≡ 200
      → IsIssuance s e (exchange cfg store resolver signer now r s e).1 j.body
  unfolding exchange
  exchange_sound (ok (client, code, check)) s e j same h answer status =
      after_consume_sound client code check s e
        (store.consume_authorization_code (hash_presented_code code) check now s) j
        (read_request-IsRequest form_body auth_header resolver now client code check same) refl
        answer status
  exchange_sound (err x) s e j same h answer status =
      let denial : IsDenial (json_body j) = rw answer at h in absurd (denial.1 status)

  -- A response with status 200 is sent only for an authenticated request whose code the store held
  -- live, bound to that client, redirect URI and verifier; the code is then spent. The signed claims
  -- are the issuer, the subject stored with the code, the client as the audience, the time and the
  -- end of the lifetime, the stored nonce if there is one, and the hash of the access token.
  pub handle_token-IsIssuance :
      (s : S) (e : Entropy) (j : JsonResponse)
      → (handle_token cfg store resolver signer now form_body auth_header s e).0 ≡ json_body j
      → j.status ≡ 200
      → IsIssuance s e
          (handle_token cfg store resolver signer now form_body auth_header s e).1
          j.body
  unfolding handle_token
  handle_token-IsIssuance s e j answer status =
      exchange_sound (read_request form_body auth_header resolver now) s e j refl
        (read_request-OnErr form_body auth_header resolver now) answer status
