-- ===== src/Worker/RegistryContract.antt =====
-- crates/discord-oidc-worker: the registry behind its stub (durable.rs with
-- registry_client.rs) against the contract of the registry.
use discord_oidc.Prelude.{
  String, ◌≡◌, ◌⊎◌, refl, ◌∙◌, inl, inr, true, Option, none, some, Result, all,
}
use discord_oidc.Prelude.Text.{as_bytes}
use discord_oidc.Registry.{
  active, disabled, DynamicClientRecord, DynamicClientRegistry, apply_metadata, enable, disable,
  is_dynamic_client_id,
}
use discord_oidc.Registry.Memory.Laws.{Operation, put, update, status, rotate}
use discord_oidc.Registry.Memory.Effect.{effect, on_id}
use discord_oidc.Registry.Contract.{
  subject, changed, with_status, state_after, Succeeds, IsRegistry,
}
use discord_oidc.Worker.Storage.{WorkerError, Storage, IsStorage, IsStub}
use discord_oidc.Worker.ClientRegistryState.{
  client_key, Message, record_body, update_body, status_body, rotate_body, Response, fetch, change,
  insert,
}
use discord_oidc.Worker.ClientRegistryState
use discord_oidc.Worker.RegistryClient.{action_of, record_path, action_path, send, registry_client}
use discord_oidc.Worker.Paths.{is_path_byte}
use discord_oidc.Worker.Records.{mapped, put_at, after_rotation}
use discord_oidc.Worker.Changes.{change-Became, insert-Became}
use discord_oidc.Worker.Rotations.{rotate-Became}
use discord_oidc.Worker.RegistryMessages.{
  handled_state, insert_fetch, message, on_key_id, put_key_id, rotate-fetch, status_fetch,
  update_fetch,
}
use discord_oidc.Worker.Listing.{list_answer, list_answer-IsSorted}
use discord_oidc.Worker.RegistryAnswers.{
  get_answer, insert_answer, rotation_answer, status_answer, update_answer,
}

module _ {S : Type 0} (storage : Storage DynamicClientRecord S)
    (held : S → String → Option DynamicClientRecord) (laws : IsStorage storage held)
    (stub : Message → S → Result Response WorkerError × S) (stub_laws : IsStub (fetch storage) stub)
    (path_of : String → String)
    (plain : (p : String) → all is_path_byte (as_bytes p) ≡ true → path_of p ≡ p) where
  abbrev client : DynamicClientRegistry S
  client = registry_client path_of (some stub)

  abbrev pub durable_held : S → String → Option DynamicClientRecord
  durable_held s id = held s (client_key id)

  -- The state after each operation, whatever becomes of its message.
  after_change :
      (id : String) (f : DynamicClientRecord → DynamicClientRecord) (m : Message) (s : S)
      (k : String)
      → fetch storage m s ≡ change storage id f s
      → (durable_held (stub m s).1 k ≡ durable_held s k)
        ⊎ (durable_held (stub m s).1 k ≡ on_id id k f (durable_held s k))
  after_change id f m s k handled =
      elim (handled_state storage held laws stub stub_laws path_of plain
        (λ j o. on_id (client_key id) j f o) m s (change storage id f s) handled
        (change-Became storage held laws id f s) (client_key k)) [
          | inl before ↦ inl before
          | inr after ↦ inr (after ∙ on_key_id id k f (durable_held s k))
        ]

  otherwise_lem :
      (op : Operation) (s : S) (k : String)
      → is_dynamic_client_id (subject op) ≡ true
      → (durable_held (state_after client op s) k ≡ durable_held s k)
        ⊎ (durable_held (state_after client op s) k ≡ effect op k (durable_held s k))
  unfolding registry_client send effect
  otherwise_lem (put x) s k dyn =
      elim (handled_state storage held laws stub stub_laws path_of plain
        (put_at (client_key x.client_id) x)
        (message "PUT" (path_of (record_path x.client_id)) (record_body x)) s
        (insert storage x.client_id x s)
        (insert_fetch storage held laws stub stub_laws path_of plain x s dyn)
        (insert-Became storage held laws x.client_id x s) (client_key k)) [
          | inl before ↦ inl before
          | inr after ↦ inr (after ∙ put_key_id x k (durable_held s k))
        ]
  otherwise_lem (update id m now) s k dyn =
      after_change id (apply_metadata m now)
        (message "POST" (path_of (action_path id "update")) (update_body m now)) s k
        (update_fetch storage held laws stub stub_laws path_of plain id m now s dyn)
  otherwise_lem (status id active now) s k dyn =
      after_change id (enable now)
        (message "POST" (path_of (action_path id (action_of active))) (status_body now)) s k
        (status_fetch storage held laws stub stub_laws path_of plain id active now s dyn)
  otherwise_lem (status id disabled now) s k dyn =
      after_change id (disable now)
        (message "POST" (path_of (action_path id (action_of disabled))) (status_body now)) s k
        (status_fetch storage held laws stub stub_laws path_of plain id disabled now s dyn)
  otherwise_lem (rotate id h now) s k dyn =
      elim (handled_state storage held laws stub stub_laws path_of plain
        (λ j o. on_id (client_key id) j (after_rotation h now) o)
        (message "POST" (path_of (action_path id "rotate-secret")) (rotate_body h now)) s
        (ClientRegistryState.rotate storage id h now s)
        (rotate-fetch storage held laws stub stub_laws path_of plain id h now s dyn)
        (rotate-Became storage held laws id h now s) (client_key k)) [
          | inl before ↦ inl before
          | inr after ↦ inr (after ∙ on_key_id id k (after_rotation h now) (durable_held s k))
        ]

  applied_lem :
      (op : Operation) (s : S) (k : String)
      → is_dynamic_client_id (subject op) ≡ true
      → Succeeds client op s
      → durable_held (state_after client op s) k ≡ effect op k (durable_held s k)
  unfolding effect
  applied_lem (put x) s k dyn (b, e) =
      (insert_answer storage held laws stub stub_laws path_of plain x s b dyn e).1 (client_key k)
      ∙ put_key_id x k (durable_held s k)
  applied_lem (update id m now) s k dyn (y, e) =
      (update_answer storage held laws stub stub_laws path_of plain id m now s y dyn e).1
        (client_key k)
      ∙ on_key_id id k (apply_metadata m now) (durable_held s k)
  applied_lem (status id active now) s k dyn (y, e) =
      (status_answer storage held laws stub stub_laws path_of plain id active now s y dyn e).1
        (client_key k)
      ∙ on_key_id id k (enable now) (durable_held s k)
  applied_lem (status id disabled now) s k dyn (y, e) =
      (status_answer storage held laws stub stub_laws path_of plain id disabled now s y dyn e).1
        (client_key k)
      ∙ on_key_id id k (disable now) (durable_held s k)
  applied_lem (rotate id h now) s k dyn (y, e) =
      (rotation_answer storage held laws stub stub_laws path_of plain id h now s y dyn e).1
        (client_key k)
      ∙ on_key_id id k (after_rotation h now) (durable_held s k)

  mapped-changed :
      (f : DynamicClientRecord → DynamicClientRecord) (o : Option DynamicClientRecord)
      → mapped f o ≡ changed f o
  mapped-changed f none = refl
  mapped-changed f (some x) = refl

  -- The registry behind its stub keeps the contract of `DynamicClientRegistry` for ids of the
  -- dynamic form: the answers are those of a registry that holds the stored records, the list has
  -- exactly those records in the order of their ids, an operation that succeeds does to each record
  -- what it does there, and one that fails does that or nothing.
  pub durable-IsRegistry : IsRegistry client durable_held
  durable-IsRegistry = record {
    get_ok = λ id s x dyn e. get_answer storage held laws stub stub_laws path_of plain id s x dyn e;
    list_ok = λ s xs x e. list_answer storage held laws stub stub_laws path_of plain s xs x e;
    list_sorted =
        λ s xs e. list_answer-IsSorted storage held laws stub stub_laws path_of plain s xs e;
    insert_ok =
        λ x s b dyn e. (insert_answer storage held laws stub stub_laws path_of plain x s b dyn e).0;
    update_ok = λ id m now s y dyn e.
        (update_answer storage held laws stub stub_laws path_of plain id m now s y dyn e).0
        ∙ mapped-changed (apply_metadata m now) (durable_held s id);
    status_ok = λ id st now s y dyn e.
        (status_answer storage held laws stub stub_laws path_of plain id st now s y dyn e).0
        ∙ mapped-changed (with_status st now) (durable_held s id);
    rotate_ok = λ id h now s y dyn e.
        (rotation_answer storage held laws stub stub_laws path_of plain id h now s y dyn e).0;
    applied = λ op s k dyn done. applied_lem op s k dyn done;
    otherwise = λ op s k dyn. otherwise_lem op s k dyn;
  }
