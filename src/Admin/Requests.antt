-- ===== src/Admin/Requests.antt =====
-- crates/oidc-core/src/admin.rs over the in-memory registry: requests as steps, along their routing.
use discord_oidc.Prelude.{
  String, inl, inr, Bool, true, false, not, Option, none, some, List, [], ◌∷◌, if◌then◌else◌, ◌==◌,
  arith, Result-cases,
}
use discord_oidc.Prelude.Int.{ℤ}
use discord_oidc.Prelude.Text.{is_empty_text, strip_prefix, split, trim_start_matches, is_slash}
use discord_oidc.Crates.{Crates}
use discord_oidc.Response.{CoreResponse}
use discord_oidc.Config.{Config}
use discord_oidc.Registry.{ClientStatus, active, disabled, generate_client_secret}
use discord_oidc.Registry.Memory.{InMemoryClientRegistry, memory_registry, update_metadata}
use discord_oidc.Registry.Memory.Laws.{update, status, rotate, apply}
use discord_oidc.Util.{Entropy}
use discord_oidc.Admin.{
  AdminRequest, create_client, update_client, on_collection, on_client, on_action, on_segments,
  on_rest, handle_admin_request, authorize_admin,
}
use discord_oidc.Admin.Operations.{
  CreateClientRequest, UpdateClientRequest, parse_body, or_invalid, static_conflict,
  dynamic_id_or_not_found, read_create, read_update, hash_of_issued, issue_secret, try_ids,
  max_id_attempts, create_read, guarded, update_read,
}
use discord_oidc.Admin.Operations
use discord_oidc.Admin.Replies.{method_not_allowed}
use discord_oidc.Admin.Steps.{
  Step, unchanged, operated, guarded-Step, read_create-IsValidMetadata, read_update-IsValidMetadata,
  try_ids-Step, has_secret-issue_secret,
}

module _ ⦃c : Crates⦄ (parse_create : String → Option CreateClientRequest)
    (parse_update : String → Option UpdateClientRequest) (cfg : Config) (now : ℤ) where
  create_client-Step :
      (body : Option String) (r : InMemoryClientRegistry) (e : Entropy)
      → Step cfg r (create_client parse_create parse_update cfg memory_registry now body r e).1
  unfolding create_client create_read
  create_client-Step body r e = elim (Result-cases (read_create parse_create body)) [
    | inr (f, bad) ↦ rw (bad, create_client, create_read) unchanged
    | inl ((m, t), good) ↦
        rw (good, create_client, create_read)
          (try_ids-Step cfg now 4 m t (issue_secret t e).0 r (issue_secret t e).1
            (read_create-IsValidMetadata cfg parse_create body m t good)
            (has_secret-issue_secret cfg t e))
  ]

  update_client-Step :
      (id : String) (body : Option String) (r : InMemoryClientRegistry) (e : Entropy)
      → Step cfg r (update_client parse_create parse_update cfg memory_registry now id body r e).1
  unfolding update_client update_read apply memory_registry update_metadata
  update_client-Step id body r e =
      guarded-Step cfg id r e
        (update_read cfg memory_registry now (read_update parse_update body) id r e)
        (λ managed. elim (Result-cases (read_update parse_update body)) [
          | inr (f, bad) ↦ rw (bad, update_read) unchanged
          | inl (m, good) ↦
              rw (good, update_read, memory_registry)
                (operated (update id m now)
                  (managed, read_update-IsValidMetadata cfg parse_update body m good))
        ])

  set_status-Step :
      (id : String) (s : ClientStatus) (r : InMemoryClientRegistry) (e : Entropy)
      → Step cfg r (Operations.set_status cfg memory_registry now id s r e).1
  unfolding Operations.set_status apply memory_registry
  set_status-Step id s r e =
      guarded-Step cfg id r e _ (λ managed. operated (status id s now) managed)

  rotate_secret-Step :
      (id : String) (r : InMemoryClientRegistry) (e : Entropy)
      → Step cfg r (Operations.rotate_secret cfg memory_registry now id r e).1
  unfolding Operations.rotate_secret apply memory_registry
  rotate_secret-Step id r e =
      guarded-Step cfg id r e _
        (λ managed. operated (rotate id (generate_client_secret e).0.hash now) managed)

  Step-if :
      (r : InMemoryClientRegistry) (b : Bool)
      (x y : CoreResponse × InMemoryClientRegistry × Entropy)
      → Step cfg r x.1
      → Step cfg r y.1
      → Step cfg r (if b then x else y).1
  Step-if r true x y h k = h
  Step-if r false x y h k = k

  on_collection-Step :
      (req : AdminRequest) (r : InMemoryClientRegistry) (e : Entropy)
      → Step cfg r (on_collection parse_create parse_update cfg memory_registry now req r e).1
  unfolding on_collection
  on_collection-Step req r e =
      Step-if r (req.method == "POST") _ _ (create_client-Step req.body r e)
        (Step-if r (req.method == "GET") _ _ unchanged unchanged)

  on_client-Step :
      (req : AdminRequest) (id : String) (r : InMemoryClientRegistry) (e : Entropy)
      → Step cfg r (on_client parse_create parse_update cfg memory_registry now req id r e).1
  unfolding on_client
  on_client-Step req id r e =
      Step-if r (req.method == "GET") _ _ unchanged
        (Step-if r (req.method == "PUT") _ _ (update_client-Step id req.body r e) unchanged)

  on_action-Step :
      (req : AdminRequest) (id action : String) (r : InMemoryClientRegistry) (e : Entropy)
      → Step cfg r (on_action parse_create parse_update cfg memory_registry now req id action r e).1
  unfolding on_action
  on_action-Step req id action r e =
      Step-if r (action == "disable") _ _ (posted _ (set_status-Step id disabled r e)) (
        Step-if r (action == "enable") _ _ (posted _ (set_status-Step id active r e)) (
          Step-if r (action == "rotate-secret") _ _ (posted _ (rotate_secret-Step id r e))
            unchanged))
    where
      posted :
          (x : CoreResponse × InMemoryClientRegistry × Entropy)
          → Step cfg r x.1
          → Step cfg r (if req.method == "POST" then x else (method_not_allowed, r, e)).1
      posted x h = Step-if r (req.method == "POST") x (method_not_allowed, r, e) h unchanged

  on_segments-Step :
      (req : AdminRequest) (parts : List String) (r : InMemoryClientRegistry) (e : Entropy)
      → Step cfg r (on_segments parse_create parse_update cfg memory_registry now req parts r e).1
  unfolding on_segments
  on_segments-Step req [] r e = unchanged
  on_segments-Step req (id ∷ []) r e =
      Step-if r (is_empty_text id) _ _ unchanged (on_client-Step req id r e)
  on_segments-Step req (id ∷ action ∷ []) r e =
      Step-if r (is_empty_text id) _ _ unchanged (on_action-Step req id action r e)
  on_segments-Step req (id ∷ action ∷ more ∷ rest) r e = unchanged

  on_rest-Step :
      (req : AdminRequest) (rest : Option String) (r : InMemoryClientRegistry) (e : Entropy)
      → Step cfg r (on_rest parse_create parse_update cfg memory_registry now req rest r e).1
  unfolding on_rest
  on_rest-Step req none r e = unchanged
  on_rest-Step req (some rest) r e =
      let same : Step cfg r r = unchanged in
      ground (
        arith,
        same,
        on_collection-Step req r e,
        on_segments-Step req (split b'/' (trim_start_matches is_slash rest)) r e,
      )

  -- Every admin request does at most one operation on the in-memory registry, on an id of the dynamic form that
  -- no static client has; a record that it inserts is consistent, and metadata that it stores is
  -- valid.
  pub handle_admin_request-Step :
      (admin_token : Option String) (req : AdminRequest) (r : InMemoryClientRegistry) (e : Entropy)
      → Step cfg r
          (handle_admin_request parse_create parse_update cfg memory_registry now admin_token req r
            e).1
  unfolding handle_admin_request
  handle_admin_request-Step admin_token req r e =
      Step-if r (not (authorize_admin req.authorization admin_token)) _ _ unchanged
        (on_rest-Step req (strip_prefix "/admin/clients" req.path) r e)
