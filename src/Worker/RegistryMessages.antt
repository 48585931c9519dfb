-- ===== src/Worker/RegistryMessages.antt =====
-- crates/discord-oidc-worker: the paths and messages of registry_client.rs, and the
-- operation of durable.rs that each of them reaches.
use Prim.Native.String
use discord_oidc.Prelude.{
  String, ◌≡◌, refl, sym, ap, subst, ◌∙◌, inl, inr, Bool, true, false, Option, none, some, Result,
  ok, err, ok-injective, arith, all, eq_iff, eq_refl, ◌==◌, Result-cases, Bool-cases,
}
use discord_oidc.Prelude.Int.{ℤ}
use discord_oidc.Prelude.Text.{as_bytes, contains_char, strip_prefix}
use discord_oidc.Registry
use discord_oidc.Registry.{
  ClientStatus, active, disabled, DynamicClientRecord, ClientMetadata, NoSecret, apply_metadata,
  enable, disable, is_dynamic_client_id,
}
use discord_oidc.Registry.Ids.{strip_prefix-append}
use discord_oidc.Registry.Memory.Effect.{on_id, put_free}
use discord_oidc.Registry.Contract.{with_status, outcome_of, rotation_outcome}
use discord_oidc.Worker.Storage.{
  Delivery-state, WorkerError, Storage, IsStorage, Delivery, delivered, answer_lost, undone, IsStub,
}
use discord_oidc.Worker.ClientRegistryState.{
  client_key, Message, Body, no_body, record_body, update_body, status_body, rotate_body, Response,
  record_reply, fetch, on_record, on_action, change, insert, get_record, record_of_body,
  update_of_body, status_of_body, rotate_of_body,
}
use discord_oidc.Worker.ClientRegistryState
use discord_oidc.Worker.RegistryClient.{
  carried, read_record, read_inserted, as_outcome, answer_get, answer_insert, action_of,
  record_path, action_path,
}
use discord_oidc.Worker.Paths.{
  is_path_byte, record_path_bytes, action_path_bytes, fetch_record, fetch_action,
}
use discord_oidc.Worker.Records.{put_at, Became, insert_response, settled, rotation_reply}

client_key-injective : (a b : String) → client_key a ≡ client_key b → a ≡ b
unfolding client_key
client_key-injective a b e = ground (
  arith,
  strip_prefix-append "client:" a,
  strip_prefix-append "client:" b,
  ap (strip_prefix "client:") e,
)

client_key_test : (a b : String) → (client_key a == client_key b) ≡ (a == b)
client_key_test a b = elim (Bool-cases (a == b)) [
  | inl same ↦
      let is_b : a ≡ b = ground (arith, eq_iff a b) in rw (same, is_b) (eq_refl (client_key b))
  | inr differ ↦
      ground (arith, eq_iff a b, eq_iff (client_key a) (client_key b), client_key-injective a b)
]

pub on_key_id :
    (id k : String) (f : DynamicClientRecord → DynamicClientRecord) (o : Option DynamicClientRecord)
    → on_id (client_key id) (client_key k) f o ≡ on_id id k f o
on_key_id id k f none = refl
on_key_id id k f (some x) = rw (client_key_test id k) refl

pub put_key_id :
    (x : DynamicClientRecord) (k : String) (o : Option DynamicClientRecord)
    → put_at (client_key x.client_id) x (client_key k) o ≡ put_free x k o
put_key_id x k none = rw (client_key_test x.client_id k) refl
put_key_id x k (some y) = refl

pub inserted_answer : (b' b : Bool) → answer_insert (ok (insert_response b')) ≡ ok b → b ≡ b'
unfolding answer_insert read_inserted
inserted_answer true b e = sym (ok-injective e)
inserted_answer false b e = sym (ok-injective e)

pub got_answer :
    (h o : Option DynamicClientRecord) → answer_get (ok (record_reply h)) ≡ ok o → o ≡ h
unfolding answer_get read_record record_reply
got_answer none o e = sym (ok-injective e)
got_answer (some x) o e = sym (ok-injective e)

settled_outcome :
    (p : Result ℤ NoSecret × DynamicClientRecord) → as_outcome (settled p) ≡ outcome_of p
unfolding as_outcome
settled_outcome (ok until, x) = refl
settled_outcome (err e, x) = refl

pub rotated_outcome :
    (h : String) (now : ℤ) (o : Option DynamicClientRecord)
    → as_outcome (rotation_reply h now o) ≡ rotation_outcome h now o
unfolding as_outcome
rotated_outcome h now none = refl
rotated_outcome h now (some x) = settled_outcome (Registry.rotate_secret h now x)

abbrev pub message : String → String → Body → Message
message method path body = record { method = method; path = path; body = body }

module _ {S : Type 0} (storage : Storage DynamicClientRecord S)
    (held : S → String → Option DynamicClientRecord) (laws : IsStorage storage held)
    (stub : Message → S → Result Response WorkerError × S) (stub_laws : IsStub (fetch storage) stub)
    (path_of : String → String)
    (plain : (p : String) → all is_path_byte (as_bytes p) ≡ true → path_of p ≡ p) where
  carried_ok :
      (m : Message) (s : S) (p : Result Response WorkerError × S) (r : Response)
      → Delivery (fetch storage) m s p
      → carried p.0 ≡ ok r
      → ((fetch storage m s).0 ≡ ok r) × (p.1 ≡ (fetch storage m s).1)
  carried_ok m s p r delivered e = elim (Result-cases (fetch storage m s).0) [
    | inl (q, good) ↦ (ground arith, refl)
    | inr (f, bad) ↦ absurd (ground arith)
  ]
  carried_ok m s p r (answer_lost x) e = absurd (ground arith)
  carried_ok m s p r (undone x) e = absurd (ground arith)

  -- The operations as the object handles them, for an id of the dynamic form.
  action_fetch :
      (id action : String) (body : Body) (s : S)
      → is_dynamic_client_id id ≡ true
      → contains_char b'/' action ≡ false
      → all is_path_byte (as_bytes (String.◌++◌ "/" action)) ≡ true
      → fetch storage (message "POST" (path_of (action_path id action)) body) s
        ≡ on_action storage (message "POST" (action_path id action) body) id action s
  action_fetch id action body s e slash bytes =
      rw (plain (action_path id action) (action_path_bytes id action e bytes))
        (fetch_action storage "POST" id action body s e slash)

  pub update_fetch :
      (id : String) (m : ClientMetadata) (now : ℤ) (s : S)
      → is_dynamic_client_id id ≡ true
      → fetch storage (message "POST" (path_of (action_path id "update")) (update_body m now)) s
        ≡ change storage id (apply_metadata m now) s
  unfolding on_action update_of_body as_bytes contains_char
  update_fetch id m now s e = action_fetch id "update" (update_body m now) s e refl refl

  pub status_fetch :
      (id : String) (st : ClientStatus) (now : ℤ) (s : S)
      → is_dynamic_client_id id ≡ true
      → fetch storage (message "POST" (path_of (action_path id (action_of st))) (status_body now)) s
        ≡ change storage id (with_status st now) s
  unfolding on_action status_of_body action_of as_bytes contains_char
  status_fetch id active now s e = action_fetch id "enable" (status_body now) s e refl refl
  status_fetch id disabled now s e = action_fetch id "disable" (status_body now) s e refl refl

  pub rotate-fetch :
      (id h : String) (now : ℤ) (s : S)
      → is_dynamic_client_id id ≡ true
      → fetch storage
          (message "POST" (path_of (action_path id "rotate-secret")) (rotate_body h now))
          s
        ≡ ClientRegistryState.rotate storage id h now s
  unfolding on_action rotate_of_body as_bytes contains_char
  rotate-fetch id h now s e = action_fetch id "rotate-secret" (rotate_body h now) s e refl refl

  pub insert_fetch :
      (x : DynamicClientRecord) (s : S)
      → is_dynamic_client_id x.client_id ≡ true
      → fetch storage (message "PUT" (path_of (record_path x.client_id)) (record_body x)) s
        ≡ insert storage x.client_id x s
  unfolding on_record record_of_body
  insert_fetch x s e =
      rw (plain (record_path x.client_id) (record_path_bytes x.client_id e))
        (fetch_record storage "PUT" x.client_id (record_body x) s e)

  pub get_fetch :
      (id : String) (s : S)
      → is_dynamic_client_id id ≡ true
      → fetch storage (message "GET" (path_of (record_path id)) no_body) s ≡ get_record storage id s
  unfolding on_record
  get_fetch id s e =
      rw (plain (record_path id) (record_path_bytes id e))
        (fetch_record storage "GET" id no_body s e)

  -- A message that the object handles as a change.
  pub handled_state :
      (g : String → Option DynamicClientRecord → Option DynamicClientRecord) (m : Message) (s : S)
      (p : Result Response WorkerError × S)
      → fetch storage m s ≡ p
      → Became storage held laws g s p.1
      → Became storage held laws g s (stub m s).1
  handled_state g m s p handled became =
      Delivery-state (fetch storage) (Became storage held laws g s) m s (stub m s) (stub_laws m s)
        (λ j. inl refl)
        (subst (λ (q : Result Response WorkerError × S). Became storage held laws g s q.1)
          (sym handled) became)

  pub handled_ok :
      (m : Message) (s : S) (p : Result Response WorkerError × S) (r : Response)
      → fetch storage m s ≡ p
      → carried (stub m s).0 ≡ ok r
      → (p.0 ≡ ok r) × ((stub m s).1 ≡ p.1)
  handled_ok m s p r handled e =
      let (answered, state) = carried_ok m s (stub m s) r (stub_laws m s) e in
      (ap (λ q. q.0) (sym handled) ∙ answered, state ∙ ap (λ q. q.1) handled)
