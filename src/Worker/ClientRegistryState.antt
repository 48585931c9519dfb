-- ===== src/Worker/ClientRegistryState.antt =====
-- crates/discord-oidc-worker/src/durable.rs: the object that holds the dynamic clients.
use Prim.Native.String
use Prim.Native.String.{compare}
use Prim.Native.Nat.{Ordering}
use discord_oidc.Prelude.{
  ℕ, String, Bool, true, false, not, Option, none, some, List, [], ◌∷◌, Result, ok, err, is_some,
  ◌==◌, if◌then◌else◌,
}
use discord_oidc.Prelude.Int.{ℤ}
use discord_oidc.Prelude.Text.{
  is_empty_text, is_slash, starts_with, split, strip_prefix, trim_start_matches,
}
use discord_oidc.Registry
use discord_oidc.Registry.{
  DynamicClientRecord, ClientMetadata, NoSecret, apply_metadata, enable, disable,
}
use discord_oidc.Worker.Storage.{WorkerError, worker_error, Storage, and_then}

unfoldable pub client_key : String → String
client_key client_id = String.◌++◌ "client:" client_id

pub data RotateSecretReply : Type 0 where
  rotated : DynamicClientRecord → RotateSecretReply
  not_found : RotateSecretReply
  no_secret : RotateSecretReply

pub data Body : Type 0 where
  no_body : Body
  record_body : DynamicClientRecord → Body
  update_body : ClientMetadata → ℤ → Body
  status_body : ℤ → Body
  rotate_body : String → ℤ → Body

pub record Message : Type 0 where
  pub method : String
  pub path : String
  pub body : Body

pub data Reply : Type 0 where
  records : List DynamicClientRecord → Reply
  found : Option DynamicClientRecord → Reply
  inserted : Bool → Reply
  rotation : RotateSecretReply → Reply
  error : String → Reply

pub record Response : Type 0 where
  pub status : ℕ
  pub reply : Reply

abbrev malformed {ℓ} : {A : Type ℓ} → Result A WorkerError
malformed = err (worker_error "malformed body")

-- `req.json()` at the type that a route wants; a body with more fields than that is read.
unfoldable pub record_of_body : Body → Result DynamicClientRecord WorkerError
record_of_body (record_body x) = ok x
record_of_body _ = malformed

unfoldable pub update_of_body : Body → Result (ClientMetadata × ℤ) WorkerError
update_of_body (update_body m now) = ok (m, now)
update_of_body _ = malformed

unfoldable pub status_of_body : Body → Result ℤ WorkerError
status_of_body (status_body now) = ok now
status_of_body (update_body m now) = ok now
status_of_body (rotate_body h now) = ok now
status_of_body _ = malformed

unfoldable pub rotate_of_body : Body → Result (String × ℤ) WorkerError
rotate_of_body (rotate_body h now) = ok (h, now)
rotate_of_body _ = malformed

abbrev pub json_ok : Reply → Response
json_ok reply = record { status = 200; reply = reply }

abbrev pub response_error : String → ℕ → Response
response_error text status = record { status = status; reply = error text }

-- The entries whose keys have the prefix, in order.
unfoldable pub client_records : List (String × DynamicClientRecord) → List DynamicClientRecord
client_records [] = []
client_records ((key, x) ∷ entries) =
    let later = client_records entries in
    if not (starts_with "client:" key) then later else x ∷ later

-- `sort_by` on the ids, which is stable.
unfoldable pub insert_sorted :
    DynamicClientRecord → List DynamicClientRecord → List DynamicClientRecord
insert_sorted x [] = x ∷ []
insert_sorted x (y ∷ ys) =
    let later = insert_sorted x ys in
    elim (compare x.client_id y.client_id) [ Ordering.gt ↦ y ∷ later | _ ↦ x ∷ y ∷ ys ]

unfoldable pub sort_by_id : List DynamicClientRecord → List DynamicClientRecord
unfolding insert_sorted
sort_by_id [] = []
sort_by_id (x ∷ xs) = insert_sorted x (sort_by_id xs)

unfoldable pub record_reply : Option DynamicClientRecord → Response
record_reply (some x) = json_ok (found (some x))
record_reply none = response_error "not found" 404

module _ {S : Type 0} (storage : Storage DynamicClientRecord S) where
  unfoldable pub list : S → Result Response WorkerError × S
  unfolding client_records sort_by_id
  list s =
      and_then (storage.list s, s)
        (λ entries t. (ok (json_ok (records (sort_by_id (client_records entries)))), t))

  unfoldable pub mutate_found :
      (DynamicClientRecord → DynamicClientRecord)
      → String
      → Option DynamicClientRecord
      → S
      → Result (Option DynamicClientRecord) WorkerError × S
  mutate_found f key none s = (ok none, s)
  mutate_found f key (some x) s = and_then (storage.put key (f x) s) (λ u t. (ok (some (f x)), t))

  unfoldable pub mutate :
      String
      → (DynamicClientRecord → DynamicClientRecord)
      → S
      → Result (Option DynamicClientRecord) WorkerError × S
  unfolding mutate_found client_key
  mutate id f s =
      and_then (storage.get (client_key id) s, s) (λ held t. mutate_found f (client_key id) held t)

  -- A change, and its answer.
  unfoldable pub change :
      String → (DynamicClientRecord → DynamicClientRecord) → S → Result Response WorkerError × S
  unfolding mutate
  change id f s = and_then (mutate id f s) (λ x t. (ok (json_ok (found x)), t))

  unfoldable pub get_record : String → S → Result Response WorkerError × S
  unfolding client_key record_reply
  get_record id s =
      and_then (storage.get (client_key id) s, s) (λ held t. (ok (record_reply held), t))

  unfoldable pub insert_free :
      String → DynamicClientRecord → Bool → S → Result Response WorkerError × S
  insert_free key x true s = (ok (record { status = 409; reply = inserted false }), s)
  insert_free key x false s =
      and_then (storage.put key x s)
        (λ u t. (ok (record { status = 201; reply = inserted true }), t))

  unfoldable pub insert : String → DynamicClientRecord → S → Result Response WorkerError × S
  unfolding insert_free client_key
  insert id x s =
      if not (x.client_id == id)
      then (ok (response_error "client_id mismatch" 400), s)
      else and_then (storage.get (client_key id) s, s)
          (λ held t. insert_free (client_key id) x (is_some held) t)

  -- What the result of a record's rotation does: a record that has no secret is not written back.
  unfoldable pub settle_rotation :
      String
      → Result ℤ NoSecret × DynamicClientRecord
      → S
      → Result RotateSecretReply WorkerError × S
  settle_rotation key (ok until, x) s = and_then (storage.put key x s) (λ u t. (ok (rotated x), t))
  settle_rotation key (err e, x) s = (ok no_secret, s)

  unfoldable pub rotate_found :
      String
      → String
      → ℤ
      → Option DynamicClientRecord
      → S
      → Result RotateSecretReply WorkerError × S
  unfolding settle_rotation
  rotate_found key h now none s = (ok not_found, s)
  rotate_found key h now (some x) s = settle_rotation key (Registry.rotate_secret h now x) s

  unfoldable pub rotate : String → String → ℤ → S → Result Response WorkerError × S
  unfolding rotate_found client_key
  rotate id h now s =
      and_then (storage.get (client_key id) s, s)
        (λ held t.
          and_then (rotate_found (client_key id) h now held t)
            (λ reply t'. (ok (json_ok (rotation reply)), t')))

  unfoldable pub on_record : Message → String → S → Result Response WorkerError × S
  unfolding get_record insert record_of_body
  on_record m id s =
      if m.method == "GET"
      then get_record id s
      else if m.method == "PUT"
      then and_then (record_of_body m.body, s) (λ x t. insert id x t)
      else (ok (response_error "not found" 404), s)

  unfoldable pub on_action : Message → String → String → S → Result Response WorkerError × S
  unfolding change rotate update_of_body status_of_body rotate_of_body
  on_action m id action s =
      if not (m.method == "POST")
      then (ok (response_error "not found" 404), s)
      else if action == "update"
      then and_then (update_of_body m.body, s)
          (λ (metadata, now) t. change id (apply_metadata metadata now) t)
      else if action == "disable"
      then and_then (status_of_body m.body, s) (λ now t. change id (disable now) t)
      else if action == "enable"
      then and_then (status_of_body m.body, s) (λ now t. change id (enable now) t)
      else if action == "rotate-secret"
      then and_then (rotate_of_body m.body, s) (λ (h, now) t. rotate id h now t)
      else (ok (response_error "not found" 404), s)

  unfoldable pub on_segments : Message → List String → S → Result Response WorkerError × S
  unfolding on_record on_action
  on_segments m (id ∷ []) s = on_record m id s
  on_segments m (id ∷ action ∷ []) s = on_action m id action s
  on_segments m _ s = (ok (response_error "not found" 404), s)

  unfoldable pub on_rest : Message → Option String → S → Result Response WorkerError × S
  unfolding list on_segments
  on_rest m none s = (ok (response_error "not found" 404), s)
  on_rest m (some rest) s =
      if is_empty_text rest
      then if m.method == "GET" then list s else (ok (response_error "method not allowed" 405), s)
      else if not (starts_with "/" rest)
      then (ok (response_error "not found" 404), s)
      else on_segments m (split b'/' (trim_start_matches is_slash rest)) s

  unfoldable pub fetch : Message → S → Result Response WorkerError × S
  unfolding on_rest
  fetch m s = on_rest m (strip_prefix "/clients" m.path) s
