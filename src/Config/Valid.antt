-- ===== src/Config/Valid.antt =====
-- crates/oidc-core/src/config.rs: what a configuration that `Config::from_input` returns satisfies.
use discord_oidc.Prelude.{
  String, ◌≡◌, refl, subst, inl, inr, Bool, true, false, not, Option, none, some, List, [], ◌∷◌,
  Result, ok, ◌>>=◌, ◌>>◌, >>=-eq-ok, ok-injective, All, is_some, arith, eq_iff, Option-cases,
  Result-cases,
}
use discord_oidc.Prelude.Int.{ℤ, pos, ◌≤ℤ◌}
use discord_oidc.Prelude.Numerals.{parse_i64}
use discord_oidc.Prelude.Text.{is_empty_text, is_slash, trim_end_matches}
use discord_oidc.Crates.{Crates, Url}
use discord_oidc.Json.{Value, Members}
use discord_oidc.Client.{ClientConfig, ClientRegistry, build_registry}
use discord_oidc.Client.Build.{IsValidRegistry, build_registry-IsValidRegistry}
use discord_oidc.Jwk.{Jwk, validate_public, is_valid_kid}
use discord_oidc.Jwk.Public.{IsPublicKey, validate_public-IsPublicKey}
use discord_oidc.Registry.{is_snowflake}
use discord_oidc.Prelude.Distinct.{IsNodup, Unseen, split-Unseen}
use discord_oidc.Prelude.Dict
use discord_oidc.Config.{Config}
use discord_oidc.Config.Input.{
  ConfigInput, ConfigError, required, ensure, is_key_id, is_origin, validate_issuer, as_key,
  see_kid, read_keys, as_values, read_jwks, read_ttl, collect, from_input, read_issuer,
  read_snowflake, read_discord_secret, read_signing_key_id, read_clients,
}

-- An https URL with a host and nothing else.
pub record IsOrigin (url : Url) : Type 0 where
  pub scheme : url.scheme ≡ "https"
  pub no_user : is_empty_text url.username ≡ true
  pub no_password : url.password ≡ none
  pub no_query : url.query ≡ none
  pub no_fragment : url.fragment ≡ none
  pub host : is_some url.host_str ≡ true
  pub root : url.path ≡ "/"

is_origin-IsOrigin : (url : Url) → is_origin url ≡ true → IsOrigin url
unfolding is_origin
is_origin-IsOrigin url e = ground (arith, eq_iff url.scheme "https", eq_iff url.path "/")

-- The ids of the keys that have one.
abbrev pub with_kid : Option String → List String → List String
with_kid none ids = ids
with_kid (some id) ids = id ∷ ids

abbrev pub kids_of : List Jwk → List String
kids_of [] = []
kids_of (k ∷ ks) = with_kid k.kid (kids_of ks)

ensure_sound : (b : Bool) (e : ConfigError) (u : Unit {0}) → ensure b e ≡ ok u → b ≡ true
ensure_sound true e u h = refl
ensure_sound false e u h = absurd (ground arith)

required_sound :
    (o : Option String) (name v : String)
    → required o name ≡ ok v
    → (o ≡ some v) × (is_empty_text v ≡ false)
unfolding required
required_sound none name v e = absurd (ground arith)
required_sound (some w) name v e = ground arith

read_ttl_sound :
    (o : Option String) (ttl : ℤ) → read_ttl o ≡ ok ttl → (pos 60 ≤ℤ ttl) × (ttl ≤ℤ pos 3600)
unfolding read_ttl
read_ttl_sound none ttl e = ground arith
read_ttl_sound (some s) ttl e = elim (Option-cases (parse_i64 s)) [
  | inl none_there ↦ absurd (ground arith)
  | inr (t, parsed) ↦ ground arith
]

key_id_sound : (id : String) → is_key_id id ≡ true → is_valid_kid id ≡ true
unfolding is_key_id is_valid_kid
key_id_sound id e = ground arith

module _ ⦃c : Crates⦄ where
  -- A key that was accepted from some JSON object.
  abbrev pub IsAccepted : Jwk → Type 0
  IsAccepted k = (ms : Members) × IsPublicKey ms k

  validate_issuer_sound :
      (raw issuer : String)
      → validate_issuer raw ≡ ok issuer
      → (url : Url) × (c.url_parse raw ≡ some url)
        × IsOrigin url
        × (issuer ≡ trim_end_matches is_slash raw)
  unfolding validate_issuer
  validate_issuer_sound raw issuer e = elim (Option-cases (c.url_parse raw)) [
    | inl bad ↦ absurd (ground arith)
    | inr (url, parsed) ↦ (url, parsed, is_origin-IsOrigin url (ground arith), ground arith)
  ]

  see_kid_sound :
      (seen seen' ids : List String) (kid : Option String)
      → see_kid seen kid ≡ ok seen'
      → IsNodup ids
      → Unseen seen' ids
      → IsNodup (with_kid kid ids) × Unseen seen (with_kid kid ids)
  unfolding see_kid
  see_kid_sound seen seen' ids none e distinct unseen =
      let same : seen' ≡ seen = ground arith in (distinct, subst (λ s. Unseen s ids) same unseen)
  see_kid_sound seen seen' ids (some id) e distinct unseen =
      let same : seen' ≡ id ∷ seen = ground arith in
      let (differ, unseen') = split-Unseen seen ids id (subst (λ s. Unseen s ids) same unseen) in
      ((differ, distinct), (ground arith, unseen'))

  as_key_sound : (v : Value) (k : Jwk) → as_key (validate_public v) ≡ ok k → IsAccepted k
  as_key_sound v k e = elim (Result-cases (validate_public v)) [
    | inr (f, bad) ↦ absurd (ground arith)
    | inl (j, good) ↦
        let (ms, _, public) = validate_public-IsPublicKey v k (ground arith) in (ms, public)
  ]

  read_keys_sound :
      (seen : List String) (vs : List Value) (ks : List Jwk)
      → read_keys seen vs ≡ ok ks
      → All IsAccepted ks × IsNodup (kids_of ks) × Unseen seen (kids_of ks)
  unfolding read_keys see_kid
  read_keys_sound seen [] [] e = (tt, tt, tt)
  read_keys_sound seen [] (k ∷ ks) e = absurd (ground arith)
  read_keys_sound seen (v ∷ vs) ks e =
      let (k, checked, e₁) = >>=-eq-ok (as_key (validate_public v)) _ e in
      let (seen', fresh, e₂) = >>=-eq-ok (see_kid seen k.kid) _ e₁ in
      let (rest, later, e₃) = >>=-eq-ok (read_keys seen' vs) _ e₂ in
      let (accepted, distinct, unseen) = read_keys_sound seen' vs rest later in
      let same : k ∷ rest ≡ ks = ground arith in
      let (distinct', unseen') =
        see_kid_sound seen seen' (kids_of rest) k.kid fresh distinct unseen in
      rw (← same) ((as_key_sound v k checked, accepted), distinct', unseen')

  read_jwks_sound :
      (parse : String → Result (List Value) String) (id : String) (o : Option String)
      (ks : List Jwk)
      → read_jwks parse id o ≡ ok ks
      → All IsAccepted ks × IsNodup (id ∷ kids_of ks)
  unfolding read_jwks
  read_jwks_sound parse id none [] e = (tt, (tt, tt))
  read_jwks_sound parse id none (k ∷ ks) e = absurd (ground arith)
  read_jwks_sound parse id (some json) ks e =
      let (raw, parsed, e₁) = >>=-eq-ok (as_values (parse json)) _ e in
      let (accepted, distinct, unseen) = read_keys_sound (id ∷ []) raw ks e₁ in
      let (differ, _) = split-Unseen [] (kids_of ks) id unseen in (accepted, (differ, distinct))

  -- The issuer is what was configured, an origin, without trailing slashes.
  pub record IsIssuer (input : ConfigInput) (issuer : String) : Type 0 where
    pub issuer_url : String
    pub configured : input.issuer_url ≡ some issuer_url
    pub url : Url
    pub parses : c.url_parse issuer_url ≡ some url
    pub origin : IsOrigin url
    pub trimmed : issuer ≡ trim_end_matches is_slash issuer_url

  pub record IsValidConfig (input : ConfigInput) (cfg : Config) : Type 0 where
    pub issuer : IsIssuer input cfg.issuer
    pub discord_client : is_snowflake cfg.discord_client_id ≡ true
    pub guild : is_snowflake cfg.required_guild_id ≡ true
    pub discord_secret : is_empty_text cfg.discord_client_secret ≡ false
    pub signing_kid : is_valid_kid cfg.signing_key_id ≡ true
    pub secrets : List (String × String)
    pub registry : IsValidRegistry cfg.clients secrets
    pub client_secrets : cfg.client_secrets ≡ collect Dict.empty secrets
    -- retired keys are public, and no key id stands twice, that of the signing key included
    pub public_keys : All IsAccepted cfg.additional_public_jwks
    pub distinct_kids : IsNodup (cfg.signing_key_id ∷ kids_of cfg.additional_public_jwks)
    pub lifetime : (pos 60 ≤ℤ cfg.id_token_ttl_secs) × (cfg.id_token_ttl_secs ≤ℤ pos 3600)

  read_issuer_sound :
      (input : ConfigInput) (issuer : String)
      → read_issuer input ≡ ok issuer
      → IsIssuer input issuer
  unfolding read_issuer
  read_issuer_sound input issuer e =
      let (raw, given, e') = >>=-eq-ok (required input.issuer_url "OIDC_ISSUER_URL") _ e in
      let (url, parses, origin, trimmed) = validate_issuer_sound raw issuer e' in
      record {
        issuer_url = raw;
        configured = (required_sound input.issuer_url _ raw given).0;
        url = url;
        parses = parses;
        origin = origin;
        trimmed = trimmed;
      }

-- A required setting that is tested.
tested_sound :
    (o : Option String) (name : String) (test : String → Bool) (f : ConfigError) (v : String)
    → (required o name >>= λ x. ensure (test x) f >> ok x) ≡ ok v
    → (test v ≡ true) × (is_empty_text v ≡ false)
tested_sound o name test f v e =
    let (x, given, e') = >>=-eq-ok (required o name) _ e in
    let (u, tested, e'') = >>=-eq-ok (ensure (test x) f) _ e' in
    let same : x ≡ v = ok-injective e'' in
    (
      subst (λ y. test y ≡ true) same (ensure_sound (test x) f u tested),
      subst (λ y. is_empty_text y ≡ false) same (required_sound o name x given).1,
    )

module _ ⦃c : Crates⦄ (parse_clients : String → Result (List ClientConfig) String)
    (parse_secrets : String → Result (List (String × String)) String)
    (parse_values : String → Result (List Value) String) where
  read_clients_sound :
      (input : ConfigInput) (r : ClientRegistry) (ss : List (String × String))
      → read_clients parse_clients parse_secrets input ≡ ok (r, ss)
      → IsValidRegistry r ss
  unfolding read_clients
  read_clients_sound input r ss e =
      let (json, given, e') = >>=-eq-ok (required input.clients_json "OIDC_CLIENTS_JSON") _ e in
      elim (Result-cases
        (build_registry parse_clients parse_secrets json input.client_secrets_json)) [
          | inr (f, bad) ↦ absurd (ground arith)
          | inl (p, good) ↦
              build_registry-IsValidRegistry parse_clients parse_secrets json
                input.client_secrets_json r ss (ground arith)
        ]

  -- A configuration that is returned has an https origin as its issuer, snowflakes as Discord ids,
  -- a valid id for the signing key, a valid registry of clients with their secrets, retired keys
  -- that are public with ids that differ from each other and from the signing key's, and a lifetime
  -- of ID Tokens between 60 and 3600 seconds.
  pub from_input-IsValidConfig :
      (input : ConfigInput) (cfg : Config)
      → from_input parse_clients parse_secrets parse_values input ≡ ok cfg
      → IsValidConfig input cfg
  unfolding from_input read_snowflake read_discord_secret read_signing_key_id
  from_input-IsValidConfig input cfg e₀ =
      let (issuer, is_issuer, e₁) = >>=-eq-ok (read_issuer input) _ e₀ in
      let (client, is_client, e₂) =
        >>=-eq-ok (read_snowflake input.discord_client_id "DISCORD_CLIENT_ID") _ e₁ in
      let (guild, is_guild, e₃) =
        >>=-eq-ok (read_snowflake input.required_guild_id "DISCORD_REQUIRED_GUILD_ID") _ e₂ in
      let (secret, is_secret, e₄) = >>=-eq-ok (read_discord_secret input) _ e₃ in
      let (kid, is_kid, e₅) = >>=-eq-ok (read_signing_key_id input) _ e₄ in
      let (key, has_key, e₆) =
        >>=-eq-ok (required input.signing_private_key "OIDC_SIGNING_PRIVATE_KEY") _ e₅ in
      let ((clients, secrets), built, e₇) =
        >>=-eq-ok (read_clients parse_clients parse_secrets input) _ e₆ in
      let (keys, read, e₈) =
        >>=-eq-ok (read_jwks parse_values kid input.additional_public_jwks_json) _ e₇ in
      let (ttl, lives, e₉) = >>=-eq-ok (read_ttl input.id_token_ttl_seconds) _ e₈ in
      let (public, distinct) =
        read_jwks_sound parse_values kid input.additional_public_jwks_json keys read in
      subst (λ k. IsValidConfig input k) (ok-injective e₉)
        (record {
          issuer = read_issuer_sound input issuer is_issuer;
          discord_client =
              (tested_sound input.discord_client_id _ is_snowflake _ client is_client).0;
          guild = (tested_sound input.required_guild_id _ is_snowflake _ guild is_guild).0;
          discord_secret =
              (tested_sound input.discord_client_secret _ (λ x. not (is_empty_text x)) _ secret
                is_secret).1;
          signing_kid =
              key_id_sound kid (tested_sound input.signing_key_id _ is_key_id _ kid is_kid).0;
          secrets = secrets;
          registry = read_clients_sound input clients secrets built;
          client_secrets = refl;
          public_keys = public;
          distinct_kids = distinct;
          lifetime = read_ttl_sound input.id_token_ttl_seconds ttl lives;
        })
