-- ===== src/Authorize/Target.antt =====
-- When a request names a client and a redirect URI that can be trusted.
use discord_oidc.Prelude.{
  String, len, ◌≤◌, ◌≡◌, ◌↔◌, refl, ap, true, Option, none, some, Result, ok, err, >>=-eq-ok,
  contains, arith,
}
use discord_oidc.Client.{ClientConfig}
use discord_oidc.Registry.{RegistryStoreError}
use discord_oidc.Resolver.{ClientResolver}
use discord_oidc.Params.{Params, single}
use discord_oidc.Authorize.{render_error, short_value, found_client, trusted_target}

-- The request names a client that resolves, and one of its registered redirect URIs.
pub record IsTarget (resolver : ClientResolver) (params : Params) (client : ClientConfig)
    (uri : String) : Type 0 where
  pub id : String
  pub names_client : single params "client_id" ≡ ok (some id)
  pub id_short : len id ≤ 2048
  pub resolves : resolver.find_client id ≡ ok (some client)
  pub names_uri : single params "redirect_uri" ≡ ok (some uri)
  pub uri_short : len uri ≤ 2048
  pub registered : contains client.redirect_uris uri ≡ true

short_value_iff {ℓ} :
    {E : Type ℓ} (r : Result (Option String) (Unit {0})) (e : E) (v : String)
    → (short_value r e ≡ ok v) ↔ ((r ≡ ok (some v)) × (len v ≤ 2048))
short_value_iff (ok (some x)) e v = (sound, complete)
  where
    sound :
        short_value (ok (some x)) e ≡ ok v
        → ◌≡◌ {A = Result (Option String) (Unit {0})} (ok (some x)) (ok (some v)) × (len v ≤ 2048)
    sound h =
        let same : x ≡ v = ground arith in
        let short : len x ≤ 2048 = ground arith in (ap (λ y. ok (some y)) same, rw same at short)

    complete :
        ◌≡◌ {A = Result (Option String) (Unit {0})} (ok (some x)) (ok (some v)) × (len v ≤ 2048)
        → short_value (ok (some x)) e ≡ ok v
    complete (same, short) =
        let eq : x ≡ v = ground arith in let short' : len x ≤ 2048 = rw eq short in ground arith
short_value_iff (ok none) e v = ground arith
short_value_iff (err u) e v = ground arith

found_client_iff :
    (r : Result (Option ClientConfig) RegistryStoreError) (client : ClientConfig)
    → (found_client r ≡ ok client) ↔ (r ≡ ok (some client))
unfolding found_client
found_client_iff (ok (some x)) client = ground arith
found_client_iff (ok none) client = ground arith
found_client_iff (err e) client = ground arith

module _ (resolver : ClientResolver) (params : Params) where
  pub trusted_target_sound :
      (client : ClientConfig) (uri : String)
      → trusted_target resolver params ≡ ok (client, uri)
      → IsTarget resolver params client uri
  unfolding trusted_target
  trusted_target_sound client uri e =
      let (id, named, e₁) =
        >>=-eq-ok
          (short_value (single params "client_id")
            (render_error 400 "invalid_request" "missing or invalid client_id"))
          _ e in
      let (client', found, e₂) = >>=-eq-ok (found_client (resolver.find_client id)) _ e₁ in
      let (uri', named', e₃) =
        >>=-eq-ok
          (short_value (single params "redirect_uri")
            (render_error 400 "invalid_request" "missing or invalid redirect_uri"))
          _ e₂ in
      let registered' : contains client'.redirect_uris uri' ≡ true = ground arith in
      let same : client' ≡ client = ground arith in
      let same_uri : uri' ≡ uri = ground arith in
      let (given, short) = (short_value_iff (single params "redirect_uri") _ uri').0 named' in
      record {
        id = id;
        names_client = ((short_value_iff (single params "client_id") _ id).0 named).0;
        id_short = ((short_value_iff (single params "client_id") _ id).0 named).1;
        resolves = rw same at ((found_client_iff _ client').0 found);
        names_uri = rw same_uri at given;
        uri_short = rw same_uri at short;
        registered = rw (← same, ← same_uri) registered';
      }

  pub trusted_target_complete :
      (client : ClientConfig) (uri : String)
      → IsTarget resolver params client uri
      → trusted_target resolver params ≡ ok (client, uri)
  unfolding trusted_target
  trusted_target_complete client uri t =
      rw
        (
          (short_value_iff _ _ t.id).1 (t.names_client, t.id_short),
          (found_client_iff _ client).1 t.resolves,
          (short_value_iff _ _ uri).1 (t.names_uri, t.uri_short),
          t.registered,
        )
        refl
