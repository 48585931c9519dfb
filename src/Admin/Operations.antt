-- ===== src/Admin/Operations.antt =====
-- crates/oidc-core/src/admin.rs: the operations of the admin API, on the state `R` of a dynamic
-- registry. The derived deserialisers of the two bodies are parameters.
use discord_oidc.Prelude.{
  ℕ, zero, suc, String, len, true, false, not, Option, none, some, List, [], ◌∷◌, ◌++◌, map, Result,
  ok, err, ◌>>=◌, is_some, ltb, if◌then◌else◌,
}
use discord_oidc.Prelude.Int.{ℤ}
use discord_oidc.Crates.{Crates}
use discord_oidc.Json.{str, object, array}
use discord_oidc.Response.{CoreResponse}
use discord_oidc.Client.{ClientConfig, ClientType, public, confidential, find}
use discord_oidc.Config.{Config}
use discord_oidc.Registry
use discord_oidc.Registry.{
  ClientStatus, ClientMetadata, DynamicClientRecord, DynamicClientRegistry, IssuedSecret,
  RegistryStoreError, RotateOutcome, ValidationError, generate_client_id, generate_client_secret,
  is_dynamic_client_id, new_record, validate_metadata,
}
use discord_oidc.Util.{Entropy}
use discord_oidc.Admin.Replies.{
  admin_error, invalid_request, client_not_found, storage_error, reply, time_to_value, error_text,
  static_view, dynamic_view,
}

abbrev pub max_admin_body_len : ℕ
max_admin_body_len = 8192

abbrev pub max_id_attempts : ℕ
max_id_attempts = 4

pub record CreateClientRequest : Type 0 where
  pub display_name : String
  pub owner_discord_user_id : String
  pub redirect_uris : List String
  pub client_type : ClientType

pub record UpdateClientRequest : Type 0 where
  pub display_name : String
  pub owner_discord_user_id : String
  pub redirect_uris : List String

-- What serde makes of a body.
abbrev pub or_malformed {ℓ} : {T : Type ℓ} → Option T → Result T CoreResponse
or_malformed none = err (invalid_request "malformed JSON body")
or_malformed (some t) = ok t

unfoldable pub parse_body {ℓ} :
    {T : Type ℓ} → (String → Option T) → Option String → Result T CoreResponse
parse_body parse none = err (invalid_request "missing request body")
parse_body parse (some body) =
    if ltb max_admin_body_len (len body)
    then err (invalid_request "request body too large")
    else or_malformed (parse body)

abbrev pub or_invalid : Result ClientMetadata ValidationError → Result ClientMetadata CoreResponse
or_invalid (ok m) = ok m
or_invalid (err e) = err (invalid_request (error_text e))

-- The guards that come before an operation on one dynamic client, as a response that ends it.
unfoldable pub static_conflict : Config → String → Option CoreResponse
static_conflict cfg id =
    if is_some (find cfg.clients id)
    then some (admin_error 409 "static_client_immutable" none)
    else none

unfoldable pub dynamic_id_or_not_found : String → Option CoreResponse
dynamic_id_or_not_found id = if not (is_dynamic_client_id id) then some client_not_found else none

-- The response to a record that was read or changed.
unfoldable pub record_reply : Result (Option DynamicClientRecord) RegistryStoreError → CoreResponse
record_reply (ok (some x)) = reply 200 (dynamic_view x none)
record_reply (ok none) = client_not_found
record_reply (err _) = storage_error

unfoldable pub rotate_reply : IssuedSecret → Result RotateOutcome RegistryStoreError → CoreResponse
rotate_reply secret (ok (Registry.rotated x)) = reply 200 (
    object (
      ("client_id", str x.client_id)
      ∷ ("client_secret", str secret.plaintext)
      ∷ ("previous_secret_valid_until", time_to_value x.previous_secret_valid_until)
      ∷ []))
rotate_reply secret (ok Registry.RotateOutcome.not_found) = client_not_found
rotate_reply secret (ok Registry.RotateOutcome.no_secret) =
    admin_error 400 "client_has_no_secret" none
rotate_reply secret (err _) = storage_error

unfoldable pub list_reply :
    List ClientConfig → Result (List DynamicClientRecord) RegistryStoreError → CoreResponse
list_reply clients (ok xs) = reply 200 (
    object (("clients", array (map static_view clients ++ map (λ x. dynamic_view x none) xs)) ∷ []))
list_reply clients (err _) = storage_error

unfoldable pub plaintext_of : Option IssuedSecret → Option String
plaintext_of none = none
plaintext_of (some s) = some s.plaintext

unfoldable pub hash_of_issued : Option IssuedSecret → Option String
hash_of_issued none = none
hash_of_issued (some s) = some s.hash

module _ ⦃c : Crates⦄ where
  -- `(client_type == Confidential).then(|| generate_client_secret(entropy))`
  unfoldable pub issue_secret : ClientType → Entropy → Option IssuedSecret × Entropy
  issue_secret public e = (none, e)
  issue_secret confidential e = let (s, e') = generate_client_secret e in (some s, e')

module _ ⦃c : Crates⦄ (parse_create : String → Option CreateClientRequest) where
  -- The body of a creation, with its validated metadata.
  unfoldable pub read_create : Option String → Result (ClientMetadata × ClientType) CoreResponse
  unfolding parse_body
  read_create body = do
    req ← parse_body parse_create body
    m ← or_invalid (validate_metadata req.display_name req.owner_discord_user_id req.redirect_uris)
    ok (m, req.client_type)

module _ ⦃c : Crates⦄ (parse_update : String → Option UpdateClientRequest) where
  unfoldable pub read_update : Option String → Result ClientMetadata CoreResponse
  unfolding parse_body
  read_update body = do
    req ← parse_body parse_update body
    or_invalid (validate_metadata req.display_name req.owner_discord_user_id req.redirect_uris)

module _ {R : Type 0} (cfg : Config) (registry : DynamicClientRegistry R) where
  unfoldable pub list_clients : R → CoreResponse
  unfolding list_reply
  list_clients r = list_reply cfg.clients.clients (registry.list r)

  unfoldable pub get_client : String → R → CoreResponse
  unfolding dynamic_id_or_not_found record_reply
  get_client id r = elim (find cfg.clients id) [
    | some client ↦ reply 200 (static_view client)
    | none ↦ elim (dynamic_id_or_not_found id) [
      | some response ↦ response
      | none ↦ record_reply (registry.get id r)
    ]
  ]

module _ {R : Type 0} (cfg : Config) where
  -- The guards of an operation that changes one dynamic client.
  unfoldable pub guarded :
      String → R → Entropy → CoreResponse × R × Entropy → CoreResponse × R × Entropy
  unfolding static_conflict dynamic_id_or_not_found
  guarded id r e done = elim (static_conflict cfg id) [
    | some response ↦ (response, r, e)
    | none ↦ elim (dynamic_id_or_not_found id) [ some response ↦ (response, r, e) | none ↦ done ]
  ]

module _ ⦃c : Crates⦄ {R : Type 0} (cfg : Config) (registry : DynamicClientRegistry R)
    (now : ℤ) where
  -- The loop over the attempts to find a free id.
  unfoldable pub try_ids :
      ℕ
      → ClientMetadata
      → ClientType
      → Option IssuedSecret
      → R
      → Entropy
      → CoreResponse × R × Entropy
  unfolding plaintext_of hash_of_issued
  try_ids zero m t secret r e = (storage_error, r, e)
  try_ids (suc n) m t secret r e =
      let (id, e') = generate_client_id e in
      elim (is_some (find cfg.clients id)) [
        | true ↦ try_ids n m t secret r e'
        | false ↦
            let x = new_record id m t (hash_of_issued secret) now in
            let (answer, r') = registry.insert x r in
            elim answer [
              | err _ ↦ (storage_error, r', e')
              | ok inserted ↦ elim inserted [
                | true ↦ (reply 201 (dynamic_view x (plaintext_of secret)), r', e')
                | false ↦ try_ids n m t secret r' e'
              ]
            ]
      ]

  unfoldable pub create_read :
      Result (ClientMetadata × ClientType) CoreResponse → R → Entropy → CoreResponse × R × Entropy
  unfolding issue_secret
  create_read (err response) r e = (response, r, e)
  create_read (ok (m, t)) r e =
      let (secret, e') = issue_secret t e in try_ids max_id_attempts m t secret r e'

  unfoldable pub update_read :
      Result ClientMetadata CoreResponse → String → R → Entropy → CoreResponse × R × Entropy
  unfolding record_reply
  update_read (err response) id r e = (response, r, e)
  update_read (ok m) id r e =
      let (answer, r') = registry.update_metadata id m now r in (record_reply answer, r', e)

  unfoldable pub set_status : String → ClientStatus → R → Entropy → CoreResponse × R × Entropy
  unfolding guarded record_reply
  set_status id status r e =
      guarded cfg id r e
        (let (answer, r') = registry.set_status id status now r in (record_reply answer, r', e))

  unfoldable pub rotate_secret : String → R → Entropy → CoreResponse × R × Entropy
  unfolding guarded rotate_reply
  rotate_secret id r e = guarded cfg id r e (
      let (secret, e') = generate_client_secret e in
      let (answer, r') = registry.rotate_secret id secret.hash now r in
      (rotate_reply secret answer, r', e'))
