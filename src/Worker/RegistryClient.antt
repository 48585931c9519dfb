-- ===== src/Worker/RegistryClient.antt =====
-- crates/discord-oidc-worker/src/registry_client.rs: the registry that sends each operation to the
-- object. `path_of` is the path of the URL that the platform makes of a path behind the host.
use Prim.Native.String
use discord_oidc.Prelude.{
  String, Bool, ◌||◌, Option, none, some, List, Result, ok, err, eqb, if◌then◌else◌,
}
use discord_oidc.Registry.{
  ClientStatus, active, disabled, DynamicClientRecord, DynamicClientRegistry, RegistryStoreError,
  registry_store_error, RotateOutcome,
}
use discord_oidc.Registry
use discord_oidc.Worker.Storage.{WorkerError}
use discord_oidc.Worker.ClientRegistryState.{
  Message, Body, no_body, record_body, update_body, status_body, rotate_body, Response, Reply,
  records, found, inserted, rotation, RotateSecretReply, rotated, not_found, no_secret,
}

abbrev failed {ℓ} : {A : Type ℓ} → Result A RegistryStoreError
failed = err registry_store_error

-- The bodies of the responses, at the types that the operations read.
unfoldable pub read_record : Reply → Result (Option DynamicClientRecord) RegistryStoreError
read_record (found (some x)) = ok (some x)
read_record _ = failed

unfoldable pub read_found : Reply → Result (Option DynamicClientRecord) RegistryStoreError
read_found (found x) = ok x
read_found _ = failed

unfoldable pub read_records : Reply → Result (List DynamicClientRecord) RegistryStoreError
read_records (records xs) = ok xs
read_records _ = failed

unfoldable pub read_inserted : Reply → Result Bool RegistryStoreError
read_inserted (inserted b) = ok b
read_inserted _ = failed

unfoldable pub as_outcome : RotateSecretReply → RotateOutcome
as_outcome (rotated x) = Registry.rotated x
as_outcome not_found = Registry.RotateOutcome.not_found
as_outcome no_secret = Registry.RotateOutcome.no_secret

unfoldable pub read_rotation : Reply → Result RotateOutcome RegistryStoreError
unfolding as_outcome
read_rotation (rotation reply) = ok (as_outcome reply)
read_rotation _ = failed

-- A response with the status 200, read.
unfoldable pub on_ok {ℓ} :
    {A : Type ℓ}
    → (Reply → Result A RegistryStoreError)
    → Result Response RegistryStoreError
    → Result A RegistryStoreError
on_ok read (err e) = err e
on_ok read (ok response) = if eqb response.status 200 then read response.reply else failed

unfoldable pub answer_get :
    Result Response RegistryStoreError → Result (Option DynamicClientRecord) RegistryStoreError
unfolding read_record
answer_get (err e) = err e
answer_get (ok response) =
    if eqb response.status 200
    then read_record response.reply
    else if eqb response.status 404
    then ok none
    else failed

unfoldable pub answer_insert : Result Response RegistryStoreError → Result Bool RegistryStoreError
unfolding read_inserted
answer_insert (err e) = err e
answer_insert (ok response) =
    if eqb response.status 201 || eqb response.status 409
    then read_inserted response.reply
    else failed

unfoldable pub action_of : ClientStatus → String
action_of active = "enable"
action_of disabled = "disable"

abbrev pub carried : Result Response WorkerError → Result Response RegistryStoreError
carried (ok response) = ok response
carried (err e) = failed

unfoldable pub record_path : String → String
record_path client_id = String.◌++◌ "/clients/" client_id

unfoldable pub action_path : String → String → String
action_path client_id action =
    String.◌++◌ "/clients/" (String.◌++◌ client_id (String.◌++◌ "/" action))

-- The stub is absent when the binding is.
module _ {S : Type 0} (path_of : String → String)
    (stub : Option (Message → S → Result Response WorkerError × S)) where
  unfoldable pub send : String → String → Body → S → Result Response RegistryStoreError × S
  send method path body s = elim stub [
    | none ↦ (failed, s)
    | some fetch ↦
        let (answer, t) = fetch (record { method = method; path = path_of path; body = body }) s in
        (carried answer, t)
  ]

  unfoldable pub registry_client : DynamicClientRegistry S
  unfolding send answer_get answer_insert on_ok read_found read_records read_rotation record_path
      action_path action_of
  registry_client = record {
    get = λ id s. answer_get (send "GET" (record_path id) no_body s).0;
    list = λ s. on_ok read_records (send "GET" "/clients" no_body s).0;
    insert = λ x s.
        let (answer, t) = send "PUT" (record_path x.client_id) (record_body x) s in
        (answer_insert answer, t);
    update_metadata = λ id m now s.
        let (answer, t) = send "POST" (action_path id "update") (update_body m now) s in
        (on_ok read_found answer, t);
    set_status = λ id status now s.
        let (answer, t) = send "POST" (action_path id (action_of status)) (status_body now) s in
        (on_ok read_found answer, t);
    rotate_secret = λ id h now s.
        let (answer, t) = send "POST" (action_path id "rotate-secret") (rotate_body h now) s in
        (on_ok read_rotation answer, t);
  }
