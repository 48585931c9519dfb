-- ===== src/Resolver.antt =====
-- crates/oidc-core/src/resolver.rs: clients of the static and the dynamic registry.
pub mod Lookup
use discord_oidc.Prelude.{
  String, Bool, true, false, not, Option, none, some, Result, ok, ◌>>=◌, is_some, is_some_and,
  if◌then◌else◌,
}
use discord_oidc.Prelude.Int.{ℤ}
use discord_oidc.Crates.{Crates}
use discord_oidc.Crates.Compare.{ct_eq_text}
use discord_oidc.Client.{ClientConfig, find}
use discord_oidc.Config.{Config, client_secret}
use discord_oidc.Registry.{
  DynamicClientRecord, DynamicClientRegistry, RegistryStoreError, is_dynamic_client_id, is_active,
  to_client_config, verify_secret,
}

-- The trait `ClientResolver`. A handler makes each call at most once, so the two answers may come
-- from different states of a registry.
pub record ClientResolver : Type 0 where
  pub find_client : String → Result (Option ClientConfig) RegistryStoreError
  pub verify_client_secret : String → String → ℤ → Result Bool RegistryStoreError

module _ ⦃c : Crates⦄ where
  -- `is_some_and` on the configured secret of a static client.
  unfoldable pub static_secret_matches : Config → String → String → Bool
  unfolding client_secret
  static_secret_matches cfg id presented =
      is_some_and (client_secret cfg id) (λ expected. ct_eq_text expected presented)

  -- `impl ClientResolver for Config`.
  unfoldable pub config_resolver : Config → ClientResolver
  unfolding static_secret_matches
  config_resolver cfg = record {
    find_client = λ id. ok (find cfg.clients id);
    verify_client_secret = λ id presented now. ok (static_secret_matches cfg id presented);
  }

-- `record.filter(is_active).map(to_client_config)`.
unfoldable pub active_config : Option DynamicClientRecord → Option ClientConfig
unfolding is_active
active_config none = none
active_config (some r) = if is_active r then some (to_client_config r) else none

module _ ⦃c : Crates⦄ {R : Type 0} (cfg : Config) (dynamic : DynamicClientRegistry R) (r : R) where
  unfoldable pub find_client : String → Result (Option ClientConfig) RegistryStoreError
  unfolding active_config
  find_client id = elim (find cfg.clients id) [
    | some client ↦ ok (some client)
    | none ↦
        if not (is_dynamic_client_id id)
        then ok none
        else dynamic.get id r >>= λ stored. ok (active_config stored)
  ]

  unfoldable pub verify_stored :
      String → ℤ → Option DynamicClientRecord → Result Bool RegistryStoreError
  verify_stored presented now none = ok false
  verify_stored presented now (some stored) = ok (verify_secret stored presented now)

  unfoldable pub verify_client_secret : String → String → ℤ → Result Bool RegistryStoreError
  unfolding verify_stored
  verify_client_secret id presented now =
      if is_some (find cfg.clients id)
      then ok (static_secret_matches cfg id presented)
      else if not (is_dynamic_client_id id)
      then ok false
      else dynamic.get id r >>= verify_stored presented now

  unfoldable pub registry_resolver : ClientResolver
  registry_resolver = record {
    find_client = find_client;
    verify_client_secret = verify_client_secret;
  }
