-- ===== src/Examples/Clients.antt =====
-- Clients, static and dynamic, and the resolver.
use discord_oidc.Prelude.{
  ◌≡◌, ◌↔◌, ◌⊎◌, refl, ap, len, eq_iff, true, false, none, some, [], ◌∷◌, ok, arith,
}
use discord_oidc.Prelude.Int.{pos, ◌+ℤ◌, ◌<ℤ◌}
use discord_oidc.Prelude.Text.{as_bytes, contains_char, strip_prefix}
use discord_oidc.Prelude.Dict
use discord_oidc.Client.{
  validate_client, add_clients, check_redirect_uris, is_valid_redirect_uri, check_secrets,
  check_covered, read_secrets, malformed, build_registry,
}
use discord_oidc.Client.Valid.{IsValidClient, validate_client_iff}
use discord_oidc.Client.Build.{IsValidRegistry, build_registry-IsValidRegistry}
use discord_oidc.Registry
use discord_oidc.Registry.{
  validate_metadata, generate_client_id, is_dynamic_client_id, verify_secret,
}
use discord_oidc.Registry.Metadata.{IsValidMetadata, metadata_of, validate_metadata_iff}
use discord_oidc.Registry.Ids.{is_dynamic-generate_client_id}
use discord_oidc.Registry.Record.{IsConsistent}
use discord_oidc.Registry.Rotation.{
  Verifies, hash_of, verify_secret_iff, verify-rotate_iff, verify-rotate_twice,
}
use discord_oidc.Registry.Memory.{InMemoryClientRegistry, memory_registry}
use discord_oidc.Registry.Memory.Laws.{IsValidStore, rotate, apply}
use discord_oidc.Registry.Memory.Effect.{effect, apply-effect}
use discord_oidc.Resolver.{find_client, verify_client_secret}
use discord_oidc.Resolver.Lookup.{
  Resolves, Authenticates, find_client_iff, verify_client_secret_iff,
}
use discord_oidc.Util.{sha256_b64url}
use discord_oidc.Examples.Sample.{sample_crates}
use discord_oidc.Examples.Data.{counter, config, web_client, metadata, dynamic_client}

abbrev pub registry : InMemoryClientRegistry
registry = record { records = (dynamic_client.client_id, dynamic_client) ∷ [] }

validate_client_iff_example :
    (validate_client web_client ≡ ok web_client)
    ↔ ((web_client ≡ web_client) × IsValidClient web_client)
validate_client_iff_example = validate_client_iff web_client web_client

built :
    build_registry (λ s. ok (web_client ∷ [])) (λ s. ok []) "[]" none
    ≡ ok (record { clients = web_client ∷ [] }, [])
unfolding build_registry add_clients validate_client check_redirect_uris is_valid_redirect_uri
    check_secrets check_covered read_secrets malformed sample_crates contains_char strip_prefix
built = refl

build_registry-IsValidRegistry_example : IsValidRegistry (record { clients = web_client ∷ [] }) []
build_registry-IsValidRegistry_example =
    build_registry-IsValidRegistry (λ s. ok (web_client ∷ [])) (λ s. ok []) "[]" none
      (record { clients = web_client ∷ [] }) [] built

validate_metadata_iff_example :
    (validate_metadata " App " "123456789012345678" ("https://rp.example/cb" ∷ []) ≡ ok metadata)
    ↔ ((metadata_of " App " "123456789012345678" ("https://rp.example/cb" ∷ []) ≡ metadata)
        × IsValidMetadata (metadata_of " App " "123456789012345678" ("https://rp.example/cb" ∷ [])))
validate_metadata_iff_example =
    validate_metadata_iff " App " "123456789012345678" ("https://rp.example/cb" ∷ []) metadata

is_dynamic-generate_client_id_example : is_dynamic_client_id (generate_client_id counter).0 ≡ true
is_dynamic-generate_client_id_example = is_dynamic-generate_client_id counter

dynamic_client-IsConsistent : IsConsistent dynamic_client
dynamic_client-IsConsistent = record {
  scopes = refl;
  method = refl;
  secret = refl;
  window = refl;
  disabling = refl;
}

verify_secret_iff_example :
    (verify_secret dynamic_client "secret" (pos 1100) ≡ true)
    ↔ Verifies dynamic_client "secret" (pos 1100)
verify_secret_iff_example = verify_secret_iff dynamic_client "secret" (pos 1100)

verify-rotate_iff_example :
    (verify_secret (Registry.rotate_secret "h1" (pos 1100) dynamic_client).1 "secret" (pos 1200)
      ≡ true)
    ↔ (("h1" ≡ hash_of "secret")
        ⊎ ((pos 1200 <ℤ (pos 1100 +ℤ pos 600)) × ("h0" ≡ hash_of "secret")))
verify-rotate_iff_example =
    verify-rotate_iff dynamic_client "h0" "h1" "secret" (pos 1100) (pos 1200)
      (omega arith, omega arith) refl refl refl

verify-rotate_twice_example :
    verify_secret
      (Registry.rotate_secret "h2"
        (pos 1200)
        (Registry.rotate_secret "h1" (pos 1100) dynamic_client).1).1
      "secret"
      (pos 1300)
    ≡ false
unfolding sha256_b64url sample_crates as_bytes
verify-rotate_twice_example =
    verify-rotate_twice dynamic_client "h0" "h1" "h2" "secret" (pos 1100) (pos 1200) (pos 1300)
      (omega arith, omega arith) (omega arith, omega arith) refl refl refl
      (λ e. omega (arith, ap len e)) (λ e. omega (arith, ap len e))

pub registry-IsValidStore : IsValidStore registry
unfolding Dict.get
registry-IsValidStore = record {
  ordered = (tt, tt);
  consistent = λ id x e.
      let same : dynamic_client ≡ x = ground (arith) in rw same at dynamic_client-IsConsistent;
  own_id = λ id x e. ground (arith, eq_iff dynamic_client.client_id id);
}

apply-effect_example :
    Dict.get "x" (apply (rotate dynamic_client.client_id "h1" (pos 1100)) registry).records
    ≡ effect (rotate dynamic_client.client_id "h1" (pos 1100)) "x" (Dict.get "x" registry.records)
apply-effect_example = apply-effect (rotate dynamic_client.client_id "h1" (pos 1100)) "x" registry

find_client_iff_example :
    (find_client config memory_registry registry "web" ≡ ok (some web_client))
    ↔ Resolves config memory_registry registry "web" web_client
find_client_iff_example = find_client_iff config memory_registry registry "web" web_client

verify_client_secret_iff_example :
    (verify_client_secret config memory_registry registry "web" "s" (pos 1100) ≡ ok true)
    ↔ Authenticates config memory_registry registry "web" "s" (pos 1100)
verify_client_secret_iff_example =
    verify_client_secret_iff config memory_registry registry "web" "s" (pos 1100)
