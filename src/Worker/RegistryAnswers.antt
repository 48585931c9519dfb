-- ===== src/Worker/RegistryAnswers.antt =====
-- crates/discord-oidc-worker: the answers that registry_client.rs reads, against
-- what the object of durable.rs holds.
use discord_oidc.Prelude.{
  String, ◌≡◌, sym, ap, ◌∙◌, inl, inr, Bool, true, not, Option, some, Result, ok, arith, all,
  is_some, Result-cases,
}
use discord_oidc.Prelude.Int.{ℤ}
use discord_oidc.Prelude.Text.{as_bytes}
use discord_oidc.Registry.{
  ClientStatus, DynamicClientRecord, ClientMetadata, DynamicClientRegistry, RotateOutcome,
  apply_metadata, is_dynamic_client_id,
}
use discord_oidc.Registry.Memory.Effect.{on_id}
use discord_oidc.Registry.Contract.{with_status, rotation_outcome}
use discord_oidc.Worker.Storage.{WorkerError, Storage, IsStorage, IsStub}
use discord_oidc.Worker.ClientRegistryState.{
  client_key, Message, no_body, record_body, update_body, status_body, rotate_body, Response, fetch,
  change, insert, get_record,
}
use discord_oidc.Worker.ClientRegistryState
use discord_oidc.Worker.RegistryClient.{
  carried, read_found, read_inserted, read_rotation, on_ok, answer_get, answer_insert, action_of,
  record_path, action_path, send, registry_client,
}
use discord_oidc.Worker.Paths.{is_path_byte}
use discord_oidc.Worker.Records.{mapped, put_at, Applied, after_rotation}
use discord_oidc.Worker.Changes.{change_ok, insert_ok}
use discord_oidc.Worker.Rotations.{rotate_ok, get_ok}
use discord_oidc.Worker.RegistryMessages.{
  get_fetch, got_answer, handled_ok, insert_fetch, inserted_answer, message, rotate-fetch,
  rotated_outcome, status_fetch, update_fetch,
}

module _ {S : Type 0} (storage : Storage DynamicClientRecord S)
    (held : S → String → Option DynamicClientRecord) (laws : IsStorage storage held)
    (stub : Message → S → Result Response WorkerError × S) (stub_laws : IsStub (fetch storage) stub)
    (path_of : String → String)
    (plain : (p : String) → all is_path_byte (as_bytes p) ≡ true → path_of p ≡ p) where
  -- A change of one record and its answer.
  found_answer :
      (m : Message) (id : String) (f : DynamicClientRecord → DynamicClientRecord) (s : S)
      (y : Option DynamicClientRecord)
      → fetch storage m s ≡ change storage id f s
      → on_ok read_found (carried (stub m s).0) ≡ ok y
      → (y ≡ mapped f (held s (client_key id)))
        × Applied storage held laws (λ j o. on_id (client_key id) j f o) s (stub m s).1
  unfolding on_ok read_found
  found_answer m id f s y handled e = elim (Result-cases (carried (stub m s).0)) [
    | inr (x, bad) ↦ absurd (ground arith)
    | inl (r, good) ↦
        let (answered, state) =
          handled_ok storage held laws stub stub_laws path_of plain m s (change storage id f s) r
            handled good in
        let (response, applied) = change_ok storage held laws id f s r answered in
        (ground (arith, good, response), λ j. ap (λ t. held t j) state ∙ applied j)
  ]

  abbrev client : DynamicClientRegistry S
  client = registry_client path_of (some stub)

  pub rotation_answer :
      (id h : String) (now : ℤ) (s : S) (y : RotateOutcome)
      → is_dynamic_client_id id ≡ true
      → (client.rotate_secret id h now s).0 ≡ ok y
      → (y ≡ rotation_outcome h now (held s (client_key id)))
        × Applied storage held laws
            (λ j o. on_id (client_key id) j (after_rotation h now) o)
            s
            (client.rotate_secret id h now s).1
  unfolding registry_client send on_ok read_rotation
  rotation_answer id h now s y dyn e =
      let m = message "POST" (path_of (action_path id "rotate-secret")) (rotate_body h now) in
      elim (Result-cases (carried (stub m s).0)) [
        | inr (x, bad) ↦ absurd (ground arith)
        | inl (r, good) ↦
            let (answered, state) =
              handled_ok storage held laws stub stub_laws path_of plain m s
                (ClientRegistryState.rotate storage id h now s) r
                (rotate-fetch storage held laws stub stub_laws path_of plain id h now s dyn) good in
            let (response, applied) = rotate_ok storage held laws id h now s r answered in
            (
              ground (arith, good, response, rotated_outcome h now (held s (client_key id))),
              λ j. ap (λ t. held t j) state ∙ applied j,
            )
      ]

  pub insert_answer :
      (x : DynamicClientRecord) (s : S) (b : Bool)
      → is_dynamic_client_id x.client_id ≡ true
      → (client.insert x s).0 ≡ ok b
      → (b ≡ not (is_some (held s (client_key x.client_id))))
        × Applied storage held laws (put_at (client_key x.client_id) x) s (client.insert x s).1
  unfolding registry_client send answer_insert read_inserted
  insert_answer x s b dyn e =
      let m = message "PUT" (path_of (record_path x.client_id)) (record_body x) in
      elim (Result-cases (carried (stub m s).0)) [
        | inr (f, bad) ↦ absurd (ground arith)
        | inl (r, good) ↦
            let (answered, state) =
              handled_ok storage held laws stub stub_laws path_of plain m s
                (insert storage x.client_id x s) r
                (insert_fetch storage held laws stub stub_laws path_of plain x s dyn) good in
            let (response, applied) = insert_ok storage held laws x s r answered in
            (
              inserted_answer _ b (sym (ap answer_insert (good ∙ ap ok response)) ∙ e),
              λ j. ap (λ t. held t j) state ∙ applied j,
            )
      ]

  pub get_answer :
      (id : String) (s : S) (o : Option DynamicClientRecord)
      → is_dynamic_client_id id ≡ true
      → client.get id s ≡ ok o
      → o ≡ held s (client_key id)
  unfolding registry_client send answer_get
  get_answer id s o dyn e =
      let m = message "GET" (path_of (record_path id)) no_body in
      elim (Result-cases (carried (stub m s).0)) [
        | inr (f, bad) ↦ absurd (ground arith)
        | inl (r, good) ↦
            let (answered, state) =
              handled_ok storage held laws stub stub_laws path_of plain m s
                (get_record storage id s) r
                (get_fetch storage held laws stub stub_laws path_of plain id s dyn) good in
            let response = get_ok storage held laws id s r answered in
            got_answer (held s (client_key id)) o (sym (ap answer_get (good ∙ ap ok response)) ∙ e)
      ]

  pub update_answer :
      (id : String) (m : ClientMetadata) (now : ℤ) (s : S) (y : Option DynamicClientRecord)
      → is_dynamic_client_id id ≡ true
      → (client.update_metadata id m now s).0 ≡ ok y
      → (y ≡ mapped (apply_metadata m now) (held s (client_key id)))
        × Applied storage held laws
            (λ j o. on_id (client_key id) j (apply_metadata m now) o)
            s
            (client.update_metadata id m now s).1
  unfolding registry_client send
  update_answer id m now s y dyn e =
      found_answer (message "POST" (path_of (action_path id "update")) (update_body m now)) id
        (apply_metadata m now) s y
        (update_fetch storage held laws stub stub_laws path_of plain id m now s dyn) e

  pub status_answer :
      (id : String) (st : ClientStatus) (now : ℤ) (s : S) (y : Option DynamicClientRecord)
      → is_dynamic_client_id id ≡ true
      → (client.set_status id st now s).0 ≡ ok y
      → (y ≡ mapped (with_status st now) (held s (client_key id)))
        × Applied storage held laws
            (λ j o. on_id (client_key id) j (with_status st now) o)
            s
            (client.set_status id st now s).1
  unfolding registry_client send
  status_answer id st now s y dyn e =
      found_answer (message "POST" (path_of (action_path id (action_of st))) (status_body now)) id
        (with_status st now) s y
        (status_fetch storage held laws stub stub_laws path_of plain id st now s dyn) e
