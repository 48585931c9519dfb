-- ===== src/Examples/Secrets.antt =====
-- Secrets that the admin API hands out, over the worker's registry.
use discord_oidc.Prelude.{
  String, ◌≡◌, ◌↔◌, ◌⊎◌, refl, true, Option, none, some, [], ◌∷◌, ok, arith, ◌==◌, if◌then◌else◌,
}
use discord_oidc.Prelude.Int.{ℤ, pos, ◌+ℤ◌, ◌<ℤ◌}
use discord_oidc.Prelude.Text.{strip_prefix, starts_with, split, trim_start_matches}
use discord_oidc.Prelude.Dict
use discord_oidc.Json.{str, num, object}
use discord_oidc.Response.{json_body}
use discord_oidc.Util.{random_token}
use discord_oidc.Registry
use discord_oidc.Registry.{DynamicClientRecord, DynamicClientRegistry, verify_secret}
use discord_oidc.Registry.Contract.{IsRegistry}
use discord_oidc.Registry.Rotation.{hash_of}
use discord_oidc.Admin.{create_client}
use discord_oidc.Admin.Operations
use discord_oidc.Admin.Operations.{read_create}
use discord_oidc.Admin.Issued.{CreatedFrom, create_client-CreatedFrom, rotate_secret_lem}
use discord_oidc.Worker.Storage.{delivered}
use discord_oidc.Worker.ClientRegistryState
use discord_oidc.Worker.ClientRegistryState.{
  client_key, on_rest, on_segments, on_action, rotate, rotate_found, settle_rotation,
  rotate_of_body,
}
use discord_oidc.Worker.RegistryClient.{registry_client, send, on_ok, read_rotation, as_outcome}
use discord_oidc.Worker.RegistryContract.{durable-IsRegistry}
use discord_oidc.Examples.Sample.{sample_crates}
use discord_oidc.Examples.Data.{config, counter, dynamic_client}
use discord_oidc.Examples.Storage.{Stored, map_storage, map_held, map_storage-IsStorage}
use discord_oidc.Examples.Admin.{parse_create, parse_update, client-Manages}

abbrev client : DynamicClientRegistry (Stored DynamicClientRecord)
client = registry_client (λ p. p) (some (ClientRegistryState.fetch map_storage))

abbrev client_held : Stored DynamicClientRecord → String → Option DynamicClientRecord
client_held s id = map_held s (client_key id)

client-IsRegistry : IsRegistry client client_held
client-IsRegistry =
    durable-IsRegistry map_storage map_held map_storage-IsStorage
      (ClientRegistryState.fetch map_storage) (λ m s. delivered) (λ p. p) (λ p e. refl)

abbrev stored : Stored DynamicClientRecord
stored = record {
  entries = ("client:oji_AAECAwQFBgcICQoLDA0ODw", dynamic_client) ∷ [];
  alarm = none;
}

create_client-CreatedFrom_example :
    CreatedFrom config client client_held client-IsRegistry stored counter
      (read_create parse_create (some "{}"))
      (create_client parse_create parse_update config client (pos 1100) (some "{}") stored counter)
create_client-CreatedFrom_example =
    create_client-CreatedFrom config client client_held client-IsRegistry parse_create parse_update
      (pos 1100) (some "{}") stored counter

stored_here : client_held stored dynamic_client.client_id ≡ some dynamic_client
unfolding client_key Dict.get
stored_here = refl

rotated :
    (client.rotate_secret dynamic_client.client_id
      (hash_of (random_token counter).0)
      (pos 1100)
      stored).0
    ≡ ok (
        Registry.rotated
          (Registry.rotate_secret (hash_of (random_token counter).0) (pos 1100) dynamic_client).1)
unfolding registry_client send on_ok read_rotation as_outcome ClientRegistryState.fetch on_rest
    on_segments on_action rotate rotate_found settle_rotation rotate_of_body map_storage Dict.get
    client_key strip_prefix trim_start_matches split starts_with Registry.rotate_secret
rotated = refl

rotate_secret_lem_example :
    let out =
      Operations.rotate_secret config client (pos 1100) dynamic_client.client_id stored counter in
    (out.0
      ≡ json_body (record {
        status = 200;
        body = object (
            ("client_id", str dynamic_client.client_id)
            ∷ ("client_secret", str (random_token counter).0)
            ∷ ("previous_secret_valid_until", num (pos 1100 +ℤ pos 600))
            ∷ []);
        no_store = true;
        extra_headers = [];
      }))
    × ((y : DynamicClientRecord) × ((k : String)
          → client_held out.1 k
            ≡ (if dynamic_client.client_id == k then some y else client_held stored k))
        × ((presented : String) (later : ℤ)
            → (verify_secret y presented later ≡ true) ↔ (
                (hash_of (random_token counter).0 ≡ hash_of presented)
                ⊎ ((later <ℤ (pos 1100 +ℤ pos 600)) × ("h0" ≡ hash_of presented)))))
rotate_secret_lem_example =
    rotate_secret_lem config client client_held client-IsRegistry (pos 1100)
      dynamic_client.client_id "h0" dynamic_client stored counter _ (omega arith, omega arith)
      client-Manages stored_here refl refl refl refl rotated
