-- ===== src/Admin/Secrecy.antt =====
-- crates/oidc-core/src/admin.rs: what the replies show of a registry's records.
use discord_oidc.Prelude.{
  ℕ, zero, suc, String, ◌≡◌, refl, ap, inl, inr, true, false, Option, none, some, List, [], ◌∷◌,
  map, Result, ok, err, arith, Option-cases, Result-cases,
}
use discord_oidc.Prelude.Int.{ℤ}
use discord_oidc.Prelude.Text.{is_slash, split, strip_prefix, trim_start_matches}
use discord_oidc.Crates.{Crates}
use discord_oidc.Response.{CoreResponse}
use discord_oidc.Client.{ClientType, ClientConfig, find}
use discord_oidc.Config.{Config}
use discord_oidc.Registry
use discord_oidc.Registry.{
  ClientStatus, active, disabled, ClientMetadata, generate_client_secret, DynamicClientRecord,
  DynamicClientRegistry, IssuedSecret, RegistryStoreError, RotateOutcome, generate_client_id,
  new_record,
}
use discord_oidc.Util.{Entropy}
use discord_oidc.Admin.{
  AdminRequest, create_client, update_client, on_collection, on_client, on_action, on_segments,
  on_rest, handle_admin_request,
}
use discord_oidc.Admin.Operations.{
  CreateClientRequest, UpdateClientRequest, hash_of_issued, issue_secret, read_create, read_update,
  record_reply, rotate_reply, list_reply, list_clients, get_client, try_ids, create_read, guarded,
  update_read,
}
use discord_oidc.Admin.Operations
use discord_oidc.Admin.Replies.{dynamic_view}

-- A record without the hashes of its secrets.
abbrev pub redact : DynamicClientRecord → DynamicClientRecord
redact x = record x { current_secret_hash = none; previous_secret_hash = none }

abbrev redact_read :
    Result (Option DynamicClientRecord) RegistryStoreError
    → Result (Option DynamicClientRecord) RegistryStoreError
redact_read (ok (some x)) = ok (some (redact x))
redact_read (ok none) = ok none
redact_read (err f) = err f

abbrev redact_list :
    Result (List DynamicClientRecord) RegistryStoreError
    → Result (List DynamicClientRecord) RegistryStoreError
redact_list (ok xs) = ok (map redact xs)
redact_list (err f) = err f

abbrev redact_rotated :
    Result RotateOutcome RegistryStoreError → Result RotateOutcome RegistryStoreError
redact_rotated (ok (Registry.rotated x)) = ok (Registry.rotated (redact x))
redact_rotated (ok Registry.RotateOutcome.not_found) = ok Registry.RotateOutcome.not_found
redact_rotated (ok Registry.RotateOutcome.no_secret) = ok Registry.RotateOutcome.no_secret
redact_rotated (err f) = err f

-- The same registry, whose answers leave the hashes out.
unfoldable pub redacted : {R : Type 0} → DynamicClientRegistry R → DynamicClientRegistry R
redacted o = record {
  get = λ id r. redact_read (o.get id r);
  list = λ r. redact_list (o.list r);
  insert = o.insert;
  update_metadata =
      λ id m now r. let (answer, r') = o.update_metadata id m now r in (redact_read answer, r');
  set_status = λ id s now r. let (answer, r') = o.set_status id s now r in (redact_read answer, r');
  rotate_secret =
      λ id h now r. let (answer, r') = o.rotate_secret id h now r in (redact_rotated answer, r');
}

record_reply_redacted :
    (a : Result (Option DynamicClientRecord) RegistryStoreError)
    → record_reply (redact_read a) ≡ record_reply a
unfolding record_reply dynamic_view
record_reply_redacted (ok (some x)) = refl
record_reply_redacted (ok none) = refl
record_reply_redacted (err f) = refl

rotate_reply_redacted :
    (s : IssuedSecret) (a : Result RotateOutcome RegistryStoreError)
    → rotate_reply s (redact_rotated a) ≡ rotate_reply s a
unfolding rotate_reply
rotate_reply_redacted s (ok (Registry.rotated x)) = refl
rotate_reply_redacted s (ok Registry.RotateOutcome.not_found) = refl
rotate_reply_redacted s (ok Registry.RotateOutcome.no_secret) = refl
rotate_reply_redacted s (err f) = refl

views_redacted :
    (xs : List DynamicClientRecord)
    → map (λ x. dynamic_view x none) (map redact xs) ≡ map (λ x. dynamic_view x none) xs
unfolding dynamic_view
views_redacted [] = refl
views_redacted (x ∷ xs) = ap (λ vs. dynamic_view x none ∷ vs) (views_redacted xs)

list_reply_redacted :
    (clients : List ClientConfig) (a : Result (List DynamicClientRecord) RegistryStoreError)
    → list_reply clients (redact_list a) ≡ list_reply clients a
unfolding list_reply
list_reply_redacted clients (ok xs) = rw (views_redacted xs) refl
list_reply_redacted clients (err f) = refl

module _ ⦃c : Crates⦄ (parse_create : String → Option CreateClientRequest)
    (parse_update : String → Option UpdateClientRequest) {R : Type 0} (cfg : Config)
    (registry : DynamicClientRegistry R) (now : ℤ) where
  try_ids-redacted :
      (n : ℕ) (m : ClientMetadata) (t : ClientType) (secret : Option IssuedSecret) (r : R)
      (e : Entropy)
      → try_ids cfg (redacted registry) now n m t secret r e
        ≡ try_ids cfg registry now n m t secret r e
  unfolding try_ids redacted
  try_ids-redacted zero m t secret r e = refl
  try_ids-redacted (suc n) m t secret r e =
      let (id, e') = generate_client_id e in
      let (answer, r') = registry.insert (new_record id m t (hash_of_issued secret) now) r in
      elim (Option-cases (find cfg.clients id)) [
        | inr (y, taken) ↦ rw (taken, try_ids) (try_ids-redacted n m t secret r e')
        | inl free ↦ elim (Result-cases answer) [
          | inl (true, good) ↦ rw (free, good, try_ids, redacted) refl
          | inl (false, held) ↦
              rw (free, held, try_ids, redacted) (try_ids-redacted n m t secret r' e')
          | inr (f, failed) ↦ rw (free, failed, try_ids, redacted) refl
        ]
      ]

  get_client-redacted :
      (id : String) (r : R) → get_client cfg (redacted registry) id r ≡ get_client cfg registry id r
  unfolding get_client redacted
  get_client-redacted id r = ground (arith, record_reply_redacted (registry.get id r))

  update_read-redacted :
      (a : Result ClientMetadata CoreResponse) (id : String) (r : R) (e : Entropy)
      → update_read cfg (redacted registry) now a id r e ≡ update_read cfg registry now a id r e
  unfolding update_read redacted
  update_read-redacted (err f) id r e = refl
  update_read-redacted (ok m) id r e =
      rw (record_reply_redacted (registry.update_metadata id m now r).0) refl

  set_status_redacted :
      (id : String) (s : ClientStatus) (r : R) (e : Entropy)
      → Operations.set_status cfg (redacted registry) now id s r e
        ≡ Operations.set_status cfg registry now id s r e
  unfolding Operations.set_status redacted
  set_status_redacted id s r e = rw (record_reply_redacted (registry.set_status id s now r).0) refl

  rotate_secret_redacted :
      (id : String) (r : R) (e : Entropy)
      → Operations.rotate_secret cfg (redacted registry) now id r e
        ≡ Operations.rotate_secret cfg registry now id r e
  unfolding Operations.rotate_secret redacted
  rotate_secret_redacted id r e =
      let (secret, e') = generate_client_secret e in
      rw (rotate_reply_redacted secret (registry.rotate_secret id secret.hash now r).0) refl

  create_read-redacted :
      (a : Result (ClientMetadata × ClientType) CoreResponse) (r : R) (e : Entropy)
      → create_read cfg (redacted registry) now a r e ≡ create_read cfg registry now a r e
  unfolding create_read
  create_read-redacted (err f) r e = refl
  create_read-redacted (ok (m, t)) r e =
      try_ids-redacted 4 m t (issue_secret t e).0 r (issue_secret t e).1

  on_collection-redacted :
      (req : AdminRequest) (r : R) (e : Entropy)
      → on_collection parse_create parse_update cfg (redacted registry) now req r e
        ≡ on_collection parse_create parse_update cfg registry now req r e
  unfolding on_collection create_client list_clients redacted
  on_collection-redacted req r e = ground (
    arith,
    create_read-redacted (read_create parse_create req.body) r e,
    list_reply_redacted cfg.clients.clients (registry.list r),
  )

  on_client-redacted :
      (req : AdminRequest) (id : String) (r : R) (e : Entropy)
      → on_client parse_create parse_update cfg (redacted registry) now req id r e
        ≡ on_client parse_create parse_update cfg registry now req id r e
  unfolding on_client update_client
  on_client-redacted req id r e = ground (
    arith,
    get_client-redacted id r,
    update_read-redacted (read_update parse_update req.body) id r e,
  )

  on_action-redacted :
      (req : AdminRequest) (id action : String) (r : R) (e : Entropy)
      → on_action parse_create parse_update cfg (redacted registry) now req id action r e
        ≡ on_action parse_create parse_update cfg registry now req id action r e
  unfolding on_action
  on_action-redacted req id action r e = ground (
    arith,
    set_status_redacted id disabled r e,
    set_status_redacted id active r e,
    rotate_secret_redacted id r e,
  )

  on_segments-redacted :
      (req : AdminRequest) (parts : List String) (r : R) (e : Entropy)
      → on_segments parse_create parse_update cfg (redacted registry) now req parts r e
        ≡ on_segments parse_create parse_update cfg registry now req parts r e
  unfolding on_segments
  on_segments-redacted req [] r e = refl
  on_segments-redacted req (id ∷ []) r e = ground (arith, on_client-redacted req id r e)
  on_segments-redacted req (id ∷ action ∷ []) r e =
      ground (arith, on_action-redacted req id action r e)
  on_segments-redacted req (id ∷ action ∷ more ∷ rest) r e = refl

  on_rest-redacted :
      (req : AdminRequest) (rest : Option String) (r : R) (e : Entropy)
      → on_rest parse_create parse_update cfg (redacted registry) now req rest r e
        ≡ on_rest parse_create parse_update cfg registry now req rest r e
  unfolding on_rest
  on_rest-redacted req none r e = refl
  on_rest-redacted req (some rest) r e = ground (
    arith,
    on_collection-redacted req r e,
    on_segments-redacted req (split b'/' (trim_start_matches is_slash rest)) r e,
  )

  -- No reply depends on a stored hash: a registry whose answers leave the hashes of the secrets out
  -- gives the same reply, the same state and the same entropy for every request.
  pub handle_admin_request-redacted :
      (admin_token : Option String) (req : AdminRequest) (r : R) (e : Entropy)
      → handle_admin_request parse_create parse_update cfg
          (redacted registry)
          now
          admin_token
          req
          r
          e
        ≡ handle_admin_request parse_create parse_update cfg registry now admin_token req r e
  unfolding handle_admin_request
  handle_admin_request-redacted admin_token req r e =
      ground (arith, on_rest-redacted req (strip_prefix "/admin/clients" req.path) r e)
