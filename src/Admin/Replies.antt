-- ===== src/Admin/Replies.antt =====
-- crates/oidc-core/src/admin.rs: the replies of the admin API, and the names under which serde
-- writes the enumerations of client.rs and registry.rs.
use Prim.Native.String
use discord_oidc.Prelude.{ℕ, String, true, Option, none, some, [], ◌∷◌, ◌++◌}
use discord_oidc.Prelude.Int.{ℤ}
use discord_oidc.Json.{Value, null, num, str, object, strings, optional}
use discord_oidc.Response.{CoreResponse, json_body}
use discord_oidc.Client.{
  ClientConfig, ClientType, public, confidential, TokenEndpointAuthMethod, no_auth,
  client_secret_basic,
}
use discord_oidc.Registry.{
  ClientStatus, active, disabled, DynamicClientRecord, ValidationError, display_name,
  owner_snowflake, redirect_count, redirect_duplicate, redirect_uri,
}

unfoldable pub admin_error : ℕ → String → Option String → CoreResponse
admin_error status code description = json_body (record {
  status = status;
  body = object (("error", str code) ∷ optional "error_description" str description);
  no_store = true;
  extra_headers = [];
})

abbrev pub invalid_request : String → CoreResponse
invalid_request description = admin_error 400 "invalid_request" (some description)

abbrev pub client_not_found : CoreResponse
client_not_found = admin_error 404 "client_not_found" none

abbrev pub storage_error : CoreResponse
storage_error = admin_error 500 "storage_error" none

abbrev pub not_found : CoreResponse
not_found = admin_error 404 "not_found" none

abbrev pub method_not_allowed : CoreResponse
method_not_allowed = admin_error 405 "method_not_allowed" none

-- The successful replies, none of which may be cached.
abbrev pub reply : ℕ → Value → CoreResponse
reply status body =
    json_body (record { status = status; body = body; no_store = true; extra_headers = [] })

abbrev pub type_to_value : ClientType → Value
type_to_value public = str "public"
type_to_value confidential = str "confidential"

abbrev pub method_to_value : TokenEndpointAuthMethod → Value
method_to_value no_auth = str "none"
method_to_value client_secret_basic = str "client_secret_basic"

abbrev pub status_to_value : ClientStatus → Value
status_to_value active = str "active"
status_to_value disabled = str "disabled"

-- An `Option<i64>` under `json!`.
abbrev pub time_to_value : Option ℤ → Value
time_to_value none = null
time_to_value (some t) = num t

-- The `Display` of a `ValidationError`.
unfoldable pub error_text : ValidationError → String
error_text display_name = "display_name must be 1..=128 UTF-8 bytes after trimming"
error_text owner_snowflake =
    "owner_discord_user_id must be a Discord snowflake (15..=22 ASCII digits)"
error_text redirect_count = "redirect_uris must contain 1..=16 entries"
error_text redirect_duplicate = "redirect_uris contains duplicates"
error_text (redirect_uri uri) = String.◌++◌ "invalid redirect_uri: " uri

unfoldable pub static_view : ClientConfig → Value
static_view client = object (
    ("client_id", str client.client_id)
    ∷ ("redirect_uris", strings client.redirect_uris)
    ∷ ("allowed_scopes", strings client.allowed_scopes)
    ∷ ("client_type", type_to_value client.client_type)
    ∷ ("token_endpoint_auth_method", method_to_value client.token_endpoint_auth_method)
    ∷ ("source", str "static")
    ∷ [])

unfoldable pub dynamic_view : DynamicClientRecord → Option String → Value
dynamic_view x secret = object (
    (("client_id", str x.client_id)
      ∷ ("display_name", str x.display_name)
      ∷ ("owner_discord_user_id", str x.owner_discord_user_id)
      ∷ ("redirect_uris", strings x.redirect_uris)
      ∷ ("client_type", type_to_value x.client_type)
      ∷ ("token_endpoint_auth_method", method_to_value x.token_endpoint_auth_method)
      ∷ ("allowed_scopes", strings x.allowed_scopes)
      ∷ ("status", status_to_value x.status)
      ∷ ("created_at", num x.created_at)
      ∷ ("updated_at", num x.updated_at)
      ∷ ("source", str "dynamic")
      ∷ [])
    ++ optional "disabled_at" num x.disabled_at
    ++ optional "client_secret" str secret)
