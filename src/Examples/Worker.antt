-- ===== src/Examples/Worker.antt =====
-- The worker: its objects over a storage that never fails, with stubs that always deliver.
use discord_oidc.Prelude.{◌↔◌, String, ◌≡◌, refl, true, none, some, Option, ok, err, arith}
use discord_oidc.Prelude.Int.{pos}
use discord_oidc.Prelude.Text.{starts_with, strip_prefix}
use discord_oidc.Registry.{DynamicClientRecord}
use discord_oidc.Registry.Contract.{IsRegistry}
use discord_oidc.Registry.Memory.{InMemoryClientRegistry, memory_registry}
use discord_oidc.Store.Contract.{IsStore}
use discord_oidc.Store.Memory.{InMemoryStore, memory_store}
use discord_oidc.Worker.Storage.{worker_error, delivered}
use discord_oidc.Worker.AuthorizationState
use discord_oidc.Worker.AuthorizationState.{Entry}
use discord_oidc.Worker.DoStore.{do_store}
use discord_oidc.Worker.StoreContract.{durable_view, durable-IsStore}
use discord_oidc.Worker.ClientRegistryState
use discord_oidc.Worker.RegistryClient.{registry_client}
use discord_oidc.Worker.RegistryContract.{durable_held, durable-IsRegistry}
use discord_oidc.Worker.DiscordHttp
use discord_oidc.Worker.DiscordHttp.{
  Network, HttpAnswer, fetch_guild_member, member_url, fetch_guild_member_none_iff,
}
use discord_oidc.Worker.Router.{
  Request, get, Platform, Runtime, json_page, error_value, cache_headers, is_admin_path, route,
}
use discord_oidc.Worker.Routes.{route_unauthorized}
use discord_oidc.Examples.Sample.{sample_crates}
use discord_oidc.Examples.Data.{config, counter}
use discord_oidc.Examples.Storage.{map_storage, map_held, map_storage-IsStorage}
use discord_oidc.Examples.Clients.{registry}
use discord_oidc.Examples.Stores.{held}
use discord_oidc.Examples.Admin.{parse_create, parse_update}
use discord_oidc.Examples.Flows.{signer}

durable-IsStore_example : IsStore (do_store (AuthorizationState.fetch (map_storage {V = Entry}))) (
    durable_view map_storage map_held map_storage-IsStorage
      (AuthorizationState.fetch map_storage)
      (λ m s. delivered))
durable-IsStore_example =
    durable-IsStore map_storage map_held map_storage-IsStorage
      (AuthorizationState.fetch map_storage) (λ m s. delivered)

durable-IsRegistry_example :
    IsRegistry
      (registry_client
        (λ p. p)
        (some (ClientRegistryState.fetch (map_storage {V = DynamicClientRecord}))))
      (durable_held map_storage map_held map_storage-IsStorage
        (ClientRegistryState.fetch map_storage)
        (λ m s. delivered)
        (λ p. p)
        (λ p e. refl))
durable-IsRegistry_example =
    durable-IsRegistry map_storage map_held map_storage-IsStorage
      (ClientRegistryState.fetch map_storage) (λ m s. delivered) (λ p. p) (λ p e. refl)

-- Bindings with an admin token and nothing else.
abbrev secret : String → Option String
secret name = some "admin-token"

abbrev platform : Platform InMemoryStore InMemoryClientRegistry
platform = record {
  var = λ name. none;
  secret = secret;
  store = some memory_store;
  registry = memory_registry;
  import_key = λ material kid. ok signer;
  network = record {
    build = λ req. err (worker_error "offline");
    send = λ req. err (worker_error "offline");
    form = λ pairs. "";
    parse_token = λ s. none;
    parse_user = λ s. none;
    parse_member = λ s. none;
  };
  parse_clients = λ s. err "";
  parse_secrets = λ s. err "";
  parse_values = λ s. err "";
  parse_create = parse_create;
  parse_update = parse_update;
}

abbrev list_request : Request
list_request = record {
  method = get;
  path = "/admin/clients";
  query = none;
  content_type = none;
  authorization = none;
  text = none;
}

to_admin : is_admin_path list_request.path ≡ true
unfolding is_admin_path starts_with strip_prefix
to_admin = refl

route_unauthorized_example : route platform (pos 1100) list_request held registry counter ≡ (
  ok (json_page 401 (cache_headers true) (error_value "unauthorized")),
  held,
  registry,
  counter,
)
route_unauthorized_example =
    route_unauthorized platform (pos 1100) list_request held registry counter to_admin
      (λ presents. ground (arith, presents.is_presented))

abbrev running : Runtime
running = record { cfg = config; signer = signer }

-- A network on which Discord answers 404.
abbrev network : Network
network = record {
  build = λ req. ok req;
  send = λ req. ok (record { status = 404; text = "{}" });
  form = λ pairs. "";
  parse_token = λ s. none;
  parse_user = λ s. none;
  parse_member = λ s. none;
}

fetch_guild_member_none_iff_example :
    (fetch_guild_member network "access" "123456789012345678" ≡ ok none) ↔ (
      (a : HttpAnswer) × (DiscordHttp.get network (member_url network "123456789012345678") "access"
        ≡ ok a)
      × (a.status ≡ 404))
fetch_guild_member_none_iff_example =
    fetch_guild_member_none_iff network "access" "123456789012345678"
