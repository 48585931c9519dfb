-- ===== src/Admin.antt =====
-- crates/oidc-core/src/admin.rs: who may use the admin API, and the routing of its requests.
pub mod Replies
pub mod Operations
pub mod Access
pub mod Steps
pub mod Requests
pub mod Managed
pub mod Secrecy
pub mod Issued
use discord_oidc.Prelude.{
  String, Bool, true, false, not, ◌&&◌, Option, none, some, List, [], ◌∷◌, ◌==◌, if◌then◌else◌,
}
use discord_oidc.Prelude.Int.{ℤ}
use discord_oidc.Prelude.Text.{
  is_empty_text, trim, strip_prefix, split, trim_start_matches, starts_with, is_slash,
}
use discord_oidc.Crates.{Crates}
use discord_oidc.Crates.Compare.{ct_eq_text}
use discord_oidc.Response.{CoreResponse}
use discord_oidc.Config.{Config}
use discord_oidc.Registry.{DynamicClientRegistry, active, disabled}
use discord_oidc.Util.{Entropy}
use discord_oidc.Admin.Replies.{admin_error, not_found, method_not_allowed}
use discord_oidc.Admin.Operations.{
  CreateClientRequest, UpdateClientRequest, read_create, read_update, create_read, list_clients,
  get_client, guarded, update_read, set_status, rotate_secret,
}

module _ ⦃c : Crates⦄ where
  -- The presented token against the expected one.
  unfoldable pub token_matches : Option String → String → Bool
  token_matches none expected = false
  token_matches (some token) expected = not (is_empty_text token) && ct_eq_text token expected

  -- `h.trim().strip_prefix("Bearer ")`, under `and_then`.
  unfoldable pub bearer_token : Option String → Option String
  bearer_token none = none
  bearer_token (some header) = strip_prefix "Bearer " (trim header)

  unfoldable pub authorize_admin : Option String → Option String → Bool
  unfolding token_matches bearer_token
  authorize_admin authorization none = false
  authorize_admin authorization (some expected) =
      token_matches (bearer_token authorization) expected

-- A request as the router reads it.
pub record AdminRequest : Type 0 where
  pub method : String
  pub path : String
  pub body : Option String
  pub authorization : Option String

module _ ⦃c : Crates⦄ (parse_create : String → Option CreateClientRequest)
    (parse_update : String → Option UpdateClientRequest) {R : Type 0} (cfg : Config)
    (registry : DynamicClientRegistry R) (now : ℤ) where
  unfoldable pub create_client : Option String → R → Entropy → CoreResponse × R × Entropy
  unfolding create_read read_create
  create_client body r e = create_read cfg registry now (read_create parse_create body) r e

  unfoldable pub update_client : String → Option String → R → Entropy → CoreResponse × R × Entropy
  unfolding guarded update_read read_update
  update_client id body r e =
      guarded cfg id r e (update_read cfg registry now (read_update parse_update body) id r e)

  -- The requests for the collection, and for one client.
  unfoldable pub on_collection : AdminRequest → R → Entropy → CoreResponse × R × Entropy
  unfolding create_client list_clients
  on_collection req r e =
      if req.method == "POST"
      then create_client req.body r e
      else if req.method == "GET"
      then (list_clients cfg registry r, r, e)
      else (method_not_allowed, r, e)

  unfoldable pub on_client : AdminRequest → String → R → Entropy → CoreResponse × R × Entropy
  unfolding update_client get_client
  on_client req id r e =
      if req.method == "GET"
      then (get_client cfg registry id r, r, e)
      else if req.method == "PUT"
      then update_client id req.body r e
      else (method_not_allowed, r, e)

  unfoldable pub on_action :
      AdminRequest → String → String → R → Entropy → CoreResponse × R × Entropy
  unfolding set_status rotate_secret
  on_action req id action r e =
      if action == "disable"
      then if req.method == "POST"
        then set_status cfg registry now id disabled r e
        else (method_not_allowed, r, e)
      else if action == "enable"
      then if req.method == "POST"
        then set_status cfg registry now id active r e
        else (method_not_allowed, r, e)
      else if action == "rotate-secret"
      then if req.method == "POST"
        then rotate_secret cfg registry now id r e
        else (method_not_allowed, r, e)
      else (not_found, r, e)

  unfoldable pub on_segments : AdminRequest → List String → R → Entropy → CoreResponse × R × Entropy
  unfolding on_client on_action
  on_segments req [] r e = (not_found, r, e)
  on_segments req (id ∷ []) r e =
      if is_empty_text id then (not_found, r, e) else on_client req id r e
  on_segments req (id ∷ action ∷ []) r e =
      if is_empty_text id then (not_found, r, e) else on_action req id action r e
  on_segments req (id ∷ action ∷ more ∷ rest) r e = (not_found, r, e)

  -- What follows the prefix of the path.
  unfoldable pub on_rest : AdminRequest → Option String → R → Entropy → CoreResponse × R × Entropy
  unfolding on_collection on_segments
  on_rest req none r e = (not_found, r, e)
  on_rest req (some rest) r e =
      if not (is_empty_text rest) && not (starts_with "/" rest)
      then (not_found, r, e)
      else if is_empty_text rest
      then on_collection req r e
      else on_segments req (split b'/' (trim_start_matches is_slash rest)) r e

  unfoldable pub handle_admin_request :
      Option String → AdminRequest → R → Entropy → CoreResponse × R × Entropy
  unfolding on_rest authorize_admin
  handle_admin_request admin_token req r e =
      if not (authorize_admin req.authorization admin_token)
      then (admin_error 401 "unauthorized" none, r, e)
      else on_rest req (strip_prefix "/admin/clients" req.path) r e
