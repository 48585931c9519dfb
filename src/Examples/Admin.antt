-- ===== src/Examples/Admin.antt =====
-- The admin API.
use discord_oidc.Prelude.{
  String, ◌≡◌, ◌↔◌, refl, subst, true, Option, none, some, [], ◌∷◌, ok, arith, eq_iff,
}
use discord_oidc.Prelude.Int.{pos}
use discord_oidc.Prelude.Text.{as_bytes, contains_char, strip_prefix, trim}
use discord_oidc.Prelude.Dict
use discord_oidc.Client.{confidential, is_valid_redirect_uri, find}
use discord_oidc.Registry.{is_dynamic_client_id, is_snowflake, validate_metadata, check_uris}
use discord_oidc.Registry.Metadata.{IsValidMetadata, validate_metadata_iff}
use discord_oidc.Registry.Memory.{memory_registry}
use discord_oidc.Admin.{AdminRequest, authorize_admin, handle_admin_request}
use discord_oidc.Admin.Operations.{CreateClientRequest, UpdateClientRequest}
use discord_oidc.Admin.Access.{Presents, authorize_admin_iff}
use discord_oidc.Admin.Steps.{Manages, metadata_in, Step}
use discord_oidc.Admin.Requests.{handle_admin_request-Step}
use discord_oidc.Admin.Managed.{IsManaged, handle_admin_request-IsManaged}
use discord_oidc.Admin.Secrecy.{redacted, handle_admin_request-redacted}
use discord_oidc.Examples.Sample.{sample_crates}
use discord_oidc.Examples.Data.{config, counter, dynamic_client, metadata}
use discord_oidc.Examples.Clients.{registry, registry-IsValidStore}

abbrev create_request : CreateClientRequest
create_request = record {
  display_name = " App ";
  owner_discord_user_id = "123456789012345678";
  redirect_uris = "https://rp.example/cb" ∷ [];
  client_type = confidential;
}

abbrev pub parse_create : String → Option CreateClientRequest
parse_create body = some create_request

abbrev pub parse_update : String → Option UpdateClientRequest
parse_update body = none

abbrev rotation : AdminRequest
rotation = record {
  method = "POST";
  path = "/admin/clients/oji_AAECAwQFBgcICQoLDA0ODw/rotate-secret";
  body = none;
  authorization = some "Bearer admin-token";
}

authorize_admin_iff_example :
    (authorize_admin (some "Bearer admin-token") (some "admin-token") ≡ true)
    ↔ Presents (some "Bearer admin-token") (some "admin-token")
authorize_admin_iff_example = authorize_admin_iff (some "Bearer admin-token") (some "admin-token")

validated :
    validate_metadata " App " "123456789012345678" ("https://rp.example/cb" ∷ []) ≡ ok metadata
unfolding validate_metadata check_uris is_valid_redirect_uri is_snowflake trim sample_crates
    as_bytes contains_char strip_prefix
validated = refl

metadata-IsValidMetadata : IsValidMetadata metadata
metadata-IsValidMetadata =
    let (same, valid) =
      (validate_metadata_iff " App " "123456789012345678" ("https://rp.example/cb" ∷ []) metadata).0
        validated in
    rw same at valid

pub client-Manages : Manages config dynamic_client.client_id
unfolding is_dynamic_client_id strip_prefix find as_bytes
client-Manages = record { is_dynamic = refl; not_static = refl }

registry-IsManaged : IsManaged config registry
unfolding Dict.get
registry-IsManaged = record {
  store = registry-IsValidStore;
  managed = λ id x e.
      let same : dynamic_client.client_id ≡ id =
        ground (arith, eq_iff dynamic_client.client_id id) in
      rw same at client-Manages;
  valid = λ id x e.
      let same : dynamic_client ≡ x = ground arith in
      subst (λ z. IsValidMetadata (metadata_in z)) same metadata-IsValidMetadata;
}

handle_admin_request-Step_example :
    Step config registry
      (handle_admin_request parse_create parse_update config memory_registry
        (pos 1100)
        (some "admin-token")
        rotation
        registry
        counter).1
handle_admin_request-Step_example =
    handle_admin_request-Step parse_create parse_update config (pos 1100) (some "admin-token")
      rotation registry counter

handle_admin_request-IsManaged_example :
    IsManaged config
      (handle_admin_request parse_create parse_update config memory_registry
        (pos 1100)
        (some "admin-token")
        rotation
        registry
        counter).1
handle_admin_request-IsManaged_example =
    handle_admin_request-IsManaged config parse_create parse_update (pos 1100) (some "admin-token")
      rotation registry counter registry-IsManaged

handle_admin_request-redacted_example :
    handle_admin_request parse_create parse_update config
      (redacted memory_registry)
      (pos 1100)
      (some "admin-token")
      rotation
      registry
      counter
    ≡ handle_admin_request parse_create parse_update config memory_registry
        (pos 1100)
        (some "admin-token")
        rotation
        registry
        counter
handle_admin_request-redacted_example =
    handle_admin_request-redacted parse_create parse_update config memory_registry (pos 1100)
      (some "admin-token") rotation registry counter
