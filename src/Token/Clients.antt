-- ===== src/Token/Clients.antt =====
-- Who is authenticated at the token endpoint.
use discord_oidc.Prelude.{
  String, ◌≡◌, ◌↔◌, refl, Bool, true, false, not, Option, none, some, Result, ok, err, >>=-eq-ok,
  is_some_and, ◌==◌, eq_iff, arith,
}
use discord_oidc.Prelude.Text.{is_empty_text, trim}
use discord_oidc.Prelude.Int.{ℤ}
use discord_oidc.Crates.{Crates}
use discord_oidc.Client.{ClientConfig, public, confidential, no_auth, client_secret_basic}
use discord_oidc.Registry.{RegistryStoreError}
use discord_oidc.Resolver.{ClientResolver}
use discord_oidc.Params.{Params, single, value_or_none}
use discord_oidc.Token.{
  decode_basic, resolved, verified, authenticate_basic, authenticate_public, authenticate_client,
}

module _ (resolver : ClientResolver) (now : ℤ) (body_client_id : Option String) where
  -- A confidential client with its secret in a `Basic` header; a body id must agree.
  pub record IsBasicClient (decoded : Option (String × String)) (client : ClientConfig)
      : Type 0 where
    pub id : String
    pub secret : String
    pub presented : decoded ≡ some (id, secret)
    pub agrees : (other : String) → body_client_id ≡ some other → other ≡ id
    pub resolves : resolver.find_client id ≡ ok (some client)
    pub type : client.client_type ≡ confidential
    pub method : client.token_endpoint_auth_method ≡ client_secret_basic
    pub verifies : resolver.verify_client_secret id secret now ≡ ok true

  -- A public client, named in the body.
  pub record IsPublicClient (client : ClientConfig) : Type 0 where
    pub id : String
    pub presented : body_client_id ≡ some id
    pub resolves : resolver.find_client id ≡ ok (some client)
    pub type : client.client_type ≡ public
    pub method : client.token_endpoint_auth_method ≡ no_auth

resolved_iff :
    (r : Result (Option ClientConfig) RegistryStoreError) (client : ClientConfig)
    → (resolved r ≡ ok client) ↔ (r ≡ ok (some client))
unfolding resolved
resolved_iff (ok (some x)) client = ground arith
resolved_iff (ok none) client = ground arith
resolved_iff (err e) client = ground arith

verified_iff :
    (r : Result Bool RegistryStoreError) (client other : ClientConfig)
    → (verified r client ≡ ok other) ↔ ((r ≡ ok true) × (client ≡ other))
unfolding verified
verified_iff (ok true) client other = ground arith
verified_iff (ok false) client other = ground arith
verified_iff (err e) client other = ground arith

module _ (resolver : ClientResolver) (now : ℤ) where
  authenticate_basic_sound :
      (body : Option String) (decoded : Option (String × String)) (client : ClientConfig)
      → authenticate_basic resolver now body decoded ≡ ok client
      → IsBasicClient resolver now body decoded client
  unfolding authenticate_basic
  authenticate_basic_sound body none client e = absurd (ground arith)
  authenticate_basic_sound body (some (id, secret)) client e =
      let agreed : is_some_and body (λ i. not (i == id)) ≡ false = ground arith in
      let (client', found, rest) =
        >>=-eq-ok (resolved (resolver.find_client id)) _ (rw agreed at e) in
      let (checked, same) =
        (verified_iff (resolver.verify_client_secret id secret now) client' client).0
          (ground arith) in
      let conf : client'.client_type ≡ confidential = ground arith in
      let basic : client'.token_endpoint_auth_method ≡ client_secret_basic = ground arith in
      record {
        id = id;
        secret = secret;
        presented = refl;
        agrees = λ other given. ground (arith, eq_iff other id);
        resolves = rw same at ((resolved_iff (resolver.find_client id) client').0 found);
        type = rw same at conf;
        method = rw same at basic;
        verifies = checked;
      }

  authenticate_basic_complete :
      (body : Option String) (decoded : Option (String × String)) (client : ClientConfig)
      → IsBasicClient resolver now body decoded client
      → authenticate_basic resolver now body decoded ≡ ok client
  unfolding authenticate_basic
  authenticate_basic_complete body decoded client b =
      let agreed : is_some_and body (λ i. not (i == b.id)) ≡ false = agreement body b.agrees in
      let passed : verified (resolver.verify_client_secret b.id b.secret now) client ≡ ok client =
        (verified_iff _ client client).1 (b.verifies, refl) in
      rw (b.presented, agreed, (resolved_iff _ client).1 b.resolves) (ground arith)
    where
      agreement :
          (o : Option String)
          → ((other : String) → o ≡ some other → other ≡ b.id)
          → is_some_and o (λ i. not (i == b.id)) ≡ false
      agreement none h = refl
      agreement (some i) h = let same : i ≡ b.id = h i refl in ground (arith, eq_iff i b.id)

  authenticate_public_iff :
      (body : Option String) (client : ClientConfig)
      → (authenticate_public resolver body ≡ ok client) ↔ IsPublicClient resolver now body client
  unfolding authenticate_public
  authenticate_public_iff none client = (λ e. absurd (ground arith), λ b. absurd (cc b.presented))
  authenticate_public_iff (some id) client = (sound, complete)
    where
      sound :
          authenticate_public resolver (some id) ≡ ok client
          → IsPublicClient resolver now (some id) client
      sound e =
          let (client', found, rest) = >>=-eq-ok (resolved (resolver.find_client id)) _ e in
          let same : client' ≡ client = ground arith in
          let open_type : client'.client_type ≡ public = ground arith in
          let none_method : client'.token_endpoint_auth_method ≡ no_auth = ground arith in
          record {
            id = id;
            presented = refl;
            resolves = rw same at ((resolved_iff (resolver.find_client id) client').0 found);
            type = rw same at open_type;
            method = rw same at none_method;
          }

      complete :
          IsPublicClient resolver now (some id) client
          → authenticate_public resolver (some id) ≡ ok client
      complete b =
          let same : b.id ≡ id = ground arith in
          rw ((resolved_iff _ client).1 (rw same at b.resolves), b.type, b.method) refl

module _ ⦃c : Crates⦄ (params : Params) (resolver : ClientResolver) (now : ℤ) where
  -- With a header, a confidential client; without one, a public client.
  abbrev pub IsAuthenticated : Option String → ClientConfig → Type 0
  IsAuthenticated none client =
      IsPublicClient resolver now (value_or_none (single params "client_id")) client
  IsAuthenticated (some auth) client =
      (is_empty_text (trim auth) ≡ false)
      × IsBasicClient resolver now (value_or_none (single params "client_id"))
          (decode_basic (trim auth)) client

  -- Without an authorization header exactly a public client that the body names and that resolves
  -- is authenticated; with one, exactly a confidential client whose id and secret the header
  -- carries, whose secret verifies and which the body does not contradict.
  pub authenticate_client_iff :
      (auth_header : Option String) (client : ClientConfig)
      → (authenticate_client params auth_header resolver now ≡ ok client)
        ↔ IsAuthenticated auth_header client
  unfolding authenticate_client
  authenticate_client_iff none client =
      authenticate_public_iff resolver now (value_or_none (single params "client_id")) client
  authenticate_client_iff (some auth) client = (
    λ e.
        let present : is_empty_text (trim auth) ≡ false = ground arith in
        (present, authenticate_basic_sound resolver now _ _ client (rw present at e)),
    λ (present, b). rw present (authenticate_basic_complete resolver now _ _ client b),
  )
