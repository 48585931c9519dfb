-- ===== src/Admin/Issued.antt =====
-- crates/oidc-core/src/admin.rs over a registry that keeps the contract of the trait and may fail:
-- creation of clients, and the secrets that creation and rotation hand out.
use discord_oidc.Prelude.{
  ℕ, zero, suc, String, ◌≡◌, ◌≢◌, ◌↔◌, ◌⊎◌, refl, sym, ap, ◌∙◌, inl, inr, true, false, Option, none,
  some, [], ◌∷◌, Result, ok, err, arith, eq_iff, eq_refl, ◌==◌, if◌then◌else◌, is_some,
  Option-cases, Result-cases, Bool-cases,
}
use discord_oidc.Prelude.Int.{ℤ, pos, ◌+ℤ◌, ◌<ℤ◌, IsTime, add_i64_exact}
use discord_oidc.Crates.{Crates}
use discord_oidc.Json.{Value, obj, str, num, object}
use discord_oidc.Response.{CoreResponse, json_body, redirect, html}
use discord_oidc.Client.{ClientType, public, confidential, find}
use discord_oidc.Config.{Config}
use discord_oidc.Jwk.{get_member}
use discord_oidc.Registry
use discord_oidc.Registry.{
  active, ClientMetadata, DynamicClientRecord, DynamicClientRegistry, RegistryStoreError,
  RotateOutcome, IssuedSecret, generate_client_id, generate_client_secret, new_record,
  verify_secret,
}
use discord_oidc.Registry.Contract.{IsRegistry}
use discord_oidc.Registry.Ids.{is_dynamic-generate_client_id}
use discord_oidc.Registry.Memory.Laws.{put, rotate}
use discord_oidc.Registry.Memory.Effect.{put_free, on_id, effect}
use discord_oidc.Registry.Rotation.{hash_of, verify_secret_iff, verify-rotate_iff}
use discord_oidc.Util.{Entropy, random_token}
use discord_oidc.Admin.{create_client}
use discord_oidc.Admin.Replies.{reply, storage_error, dynamic_view}
use discord_oidc.Admin.Operations.{
  CreateClientRequest, UpdateClientRequest, plaintext_of, hash_of_issued, issue_secret, read_create,
  try_ids, create_read, static_conflict, dynamic_id_or_not_found, guarded, rotate_reply,
}
use discord_oidc.Admin.Operations
use discord_oidc.Admin.Steps.{
  Manages, IsStorable, metadata_in, new_record-IsStorable, read_create-IsValidMetadata,
  has_secret-issue_secret,
}

-- A member of a response's JSON body.
abbrev pub given : CoreResponse → String → Option Value
given (json_body r) name = elim r.body [ obj ms ↦ get_member name ms | _ ↦ none ]
given (redirect url) name = none
given (html status body) name = none

abbrev pub shown : Option String → Option Value
shown none = none
shown (some text) = some (str text)

-- The response of a creation: it may not be cached, and it has the id and the secret, if any.
pub record Announces (response : CoreResponse) (x : DynamicClientRecord) (secret : Option String)
    : Type 0 where
  pub body : Value
  pub created : response ≡ reply 201 body
  pub id : given response "client_id" ≡ some (str x.client_id)
  pub plaintext : given response "client_secret" ≡ shown secret

put_free_new :
    (x : DynamicClientRecord) (h : String → Option DynamicClientRecord) (k : String)
    → h x.client_id ≡ none
    → put_free x k (h k) ≡ (if x.client_id == k then some x else h k)
put_free_new x h k free = elim (Option-cases (h k)) [
  | inl nothing ↦ rw nothing refl
  | inr (y, there) ↦ elim (Bool-cases (x.client_id == k)) [
    | inl same ↦
        let is_k : x.client_id ≡ k = ground (arith, eq_iff x.client_id k) in
        absurd (let none_there = ap h (sym is_k) ∙ free in ground arith)
    | inr differ ↦ rw (there, differ) refl
  ]
]

put_free_used :
    (x : DynamicClientRecord) (h : String → Option DynamicClientRecord) (k : String)
    → h x.client_id ≢ none
    → put_free x k (h k) ≡ h k
put_free_used x h k used = elim (Option-cases (h k)) [
  | inr (y, there) ↦ rw there refl
  | inl nothing ↦ elim (Bool-cases (x.client_id == k)) [
    | inl same ↦
        let is_k : x.client_id ≡ k = ground (arith, eq_iff x.client_id k) in
        absurd (used (ap h is_k ∙ nothing))
    | inr differ ↦ rw (nothing, differ) refl
  ]
]

on_id_held :
    (id k : String) (f : DynamicClientRecord → DynamicClientRecord) (x : DynamicClientRecord)
    (h : String → Option DynamicClientRecord)
    → h id ≡ some x
    → on_id id k f (h k) ≡ (if id == k then some (f x) else h k)
on_id_held id k f x h here = elim (Bool-cases (id == k)) [
  | inl same ↦ let is_k : id ≡ k = ground (arith, eq_iff id k) in rw (← is_k, here, eq_refl id) refl
  | inr differ ↦ elim (Option-cases (h k)) [
    | inl nothing ↦ rw (nothing, differ) refl
    | inr (y, there) ↦ rw (there, differ) refl
  ]
]

module _ ⦃c : Crates⦄ where
  -- What a client was given works: a public one has no secret, and that of a confidential one
  -- verifies at any time while nothing else happens to the record.
  abbrev pub Opens : DynamicClientRecord → Option String → Type 0
  Opens x none = (x.client_type ≡ public) × (x.current_secret_hash ≡ none)
  Opens x (some s) = (x.client_type ≡ confidential) × ((later : ℤ) → verify_secret x s later ≡ true)

  new_record-Opens :
      (id : String) (m : ClientMetadata) (t : ClientType) (now : ℤ) (e : Entropy)
      → Opens
          (new_record id m t (hash_of_issued (issue_secret t e).0) now)
          (plaintext_of (issue_secret t e).0)
  unfolding new_record hash_of_issued plaintext_of issue_secret generate_client_secret
  new_record-Opens id m public now e = (refl, refl)
  new_record-Opens id m confidential now e =
      let (secret, e') = generate_client_secret e in
      let x = new_record id m confidential (some secret.hash) now in
      (refl, λ later. (verify_secret_iff x secret.plaintext later).1 (refl, inl refl))

  new_record-Announces :
      (id : String) (m : ClientMetadata) (t : ClientType) (h secret : Option String) (now : ℤ)
      → Announces
          (reply 201 (dynamic_view (new_record id m t h now) secret))
          (new_record id m t h now)
          secret
  unfolding new_record dynamic_view get_member
  new_record-Announces id m t h none now = record {
    body = _;
    created = refl;
    id = refl;
    plaintext = refl;
  }
  new_record-Announces id m t h (some s) now = record {
    body = _;
    created = refl;
    id = refl;
    plaintext = refl;
  }

module _ ⦃c : Crates⦄ {R : Type 0} (cfg : Config) (registry : DynamicClientRegistry R)
    (held : R → String → Option DynamicClientRecord) (laws : IsRegistry registry held) where
  -- What the attempts to insert a client come to, each with the next id of the entropy: an id that
  -- a static client or a stored record has is passed over, and nothing changes; a registry that
  -- fails ends the attempts with a storage error; otherwise a record with the metadata and the type
  -- is stored under the free id, next to the others, and announced.
  pub data Attempts (m : ClientMetadata) (t : ClientType)
      : ℕ → R → Entropy → CoreResponse × R × Entropy → Type 0 where
    exhausted : (r : R) (e : Entropy) → Attempts m t 0 r e (storage_error, r, e)
    static_id :
        (n : ℕ) (r : R) (e : Entropy) (out : CoreResponse × R × Entropy)
        → find cfg.clients (generate_client_id e).0 ≢ none
        → Attempts m t n r (generate_client_id e).1 out
        → Attempts m t (suc n) r e out
    used_id :
        (n : ℕ) (r r' : R) (e : Entropy) (out : CoreResponse × R × Entropy)
        → held r (generate_client_id e).0 ≢ none
        → ((k : String) → held r' k ≡ held r k)
        → Attempts m t n r' (generate_client_id e).1 out
        → Attempts m t (suc n) r e out
    failed :
        (n : ℕ) (r : R) (e : Entropy) (x : DynamicClientRecord) (f : RegistryStoreError)
        → x.client_id ≡ (generate_client_id e).0
        → (registry.insert x r).0 ≡ err f
        → Attempts m t
            (suc n)
            r
            e
            (storage_error, (registry.insert x r).1, (generate_client_id e).1)
    created :
        (n : ℕ) (r r' : R) (e : Entropy) (response : CoreResponse) (x : DynamicClientRecord)
        (secret : Option String)
        → x.client_id ≡ (generate_client_id e).0
        → metadata_in x ≡ m
        → x.client_type ≡ t
        → held r (generate_client_id e).0 ≡ none
        → ((k : String) → held r' k ≡ (if (generate_client_id e).0 == k then some x else held r k))
        → IsStorable cfg x
        → Opens x secret
        → Announces response x secret
        → Attempts m t (suc n) r e (response, r', (generate_client_id e).1)

  try_ids-Attempts :
      (now : ℤ) (n : ℕ) (m : ClientMetadata) (t : ClientType) (secret : Option IssuedSecret) (r : R)
      (e : Entropy)
      → ((e' : Entropy)
          → find cfg.clients (generate_client_id e').0 ≡ none
          → IsStorable cfg (new_record (generate_client_id e').0 m t (hash_of_issued secret) now)
            × Opens
                (new_record (generate_client_id e').0 m t (hash_of_issued secret) now)
                (plaintext_of secret))
      → Attempts m t n r e (try_ids cfg registry now n m t secret r e)
  unfolding try_ids new_record
  try_ids-Attempts now zero m t secret r e good = exhausted r e
  try_ids-Attempts now (suc n) m t secret r e good =
      let (id, e') = generate_client_id e in
      let x = new_record id m t (hash_of_issued secret) now in
      let dyn = is_dynamic-generate_client_id e in
      elim (Option-cases (find cfg.clients id)) [
        | inr (y, taken) ↦
            rw (taken, try_ids)
              (static_id n r e _ (λ free. ground (arith, free, taken))
                (try_ids-Attempts now n m t secret r e' good))
        | inl free ↦ elim (Result-cases (registry.insert x r).0) [
          | inl (true, inserted) ↦
              let absent : held r id ≡ none =
                let b = laws.insert_ok x r true dyn inserted in
                elim (Option-cases (held r id)) [
                  | inl nothing ↦ nothing
                  | inr (y, there) ↦ absurd (ground arith)
                ] in
              rw (free, inserted, try_ids)
                (created n r (registry.insert x r).1 e _ x (plaintext_of secret) refl refl refl
                  absent
                  (λ k.
                    laws.applied (put x) r k dyn (true, inserted)
                    ∙ (unfold effect in put_free_new x (held r) k absent))
                  (good e free).0 (good e free).1
                  (new_record-Announces id m t (hash_of_issued secret) (plaintext_of secret) now))
          | inl (false, refused) ↦
              let used : held r id ≢ none =
                let b = laws.insert_ok x r false dyn refused in λ nothing. ground arith in
              rw (free, refused, try_ids)
                (used_id n r (registry.insert x r).1 e _ used
                  (λ k.
                    laws.applied (put x) r k dyn (false, refused)
                    ∙ (unfold effect in put_free_used x (held r) k used))
                  (try_ids-Attempts now n m t secret (registry.insert x r).1 e' good))
          | inr (f, bad) ↦ rw (free, bad, try_ids) (failed n r e x f refl bad)
        ]
      ]

  -- What a creation comes to: the reply that refused the body, with the registry as it was; or
  -- what the attempts after the body make of it.
  pub data CreatedFrom (r : R) (e : Entropy)
      : Result (ClientMetadata × ClientType) CoreResponse
        → CoreResponse × R × Entropy
        → Type 0 where
    refused : (response : CoreResponse) → CreatedFrom r e (err response) (response, r, e)
    accepted :
        (m : ClientMetadata) (t : ClientType) (out : CoreResponse × R × Entropy)
        → Attempts m t 4 r (issue_secret t e).1 out
        → CreatedFrom r e (ok (m, t)) out

  -- Over any registry that keeps its contract, a creation whose body is refused changes nothing.
  -- Otherwise it draws at most four ids, and passes over each that a static client or a stored
  -- record has; it answers 201 for a client that it has stored under a free id, with a secret that
  -- verifies exactly if the client is confidential; if the registry fails, or no id was free, it
  -- answers with a storage error.
  pub create_client-CreatedFrom :
      (parse_create : String → Option CreateClientRequest)
      (parse_update : String → Option UpdateClientRequest) (now : ℤ) (body : Option String) (r : R)
      (e : Entropy)
      → CreatedFrom r e
          (read_create parse_create body)
          (create_client parse_create parse_update cfg registry now body r e)
  unfolding create_client create_read
  create_client-CreatedFrom pc pu now body r e = elim (Result-cases (read_create pc body)) [
    | inr (response, bad) ↦ rw (bad, create_client, create_read) (refused response)
    | inl ((m, t), good) ↦
        rw (good, create_client, create_read)
          (accepted m t _ (
            try_ids-Attempts now 4 m t (issue_secret t e).0 r (issue_secret t e).1 (λ e' free. (
              new_record-IsStorable cfg m t (hash_of_issued (issue_secret t e).0) now e'
                  (read_create-IsValidMetadata cfg pc body m t good)
                  (has_secret-issue_secret cfg t e) free,
              new_record-Opens (generate_client_id e').0 m t now e,
            ))))
  ]

  guarded_managed :
      (id : String) (r : R) (e : Entropy) (done : CoreResponse × R × Entropy)
      → Manages cfg id
      → guarded cfg id r e done ≡ done
  unfolding guarded static_conflict dynamic_id_or_not_found
  guarded_managed id r e done m = ground (arith, m.is_dynamic, m.not_static)

  rotated_client :
      (h : String) (now : ℤ) (x : DynamicClientRecord)
      → IsTime now
      → x.client_type ≡ confidential
      → is_some x.current_secret_hash ≡ true
      → let p = Registry.rotate_secret h now x in
        (p.0 ≡ ok (now +ℤ pos 600))
        × (p.1.client_id ≡ x.client_id)
        × (p.1.previous_secret_valid_until ≡ some (now +ℤ pos 600))
  unfolding Registry.rotate_secret
  rotated_client h now x time conf has =
      let exact = add_i64_exact now 600 time (omega arith) in
      rw (conf, has, exact) (refl, refl, refl)

  -- Over any registry that keeps its contract and answers the rotation, a rotation of an active
  -- confidential client's secret answers with the client's id, a fresh secret, and the end of the
  -- old secret's validity in ten minutes. Under the id then stands a record for which exactly that
  -- secret verifies, and until then also the one that was current before; no other record changes.
  pub rotate_secret_lem :
      (now : ℤ) (id h : String) (x : DynamicClientRecord) (r : R) (e : Entropy)
      (outcome : RotateOutcome)
      → IsTime now
      → Manages cfg id
      → held r id ≡ some x
      → x.client_id ≡ id
      → x.status ≡ active
      → x.client_type ≡ confidential
      → x.current_secret_hash ≡ some h
      → (registry.rotate_secret id (hash_of (random_token e).0) now r).0 ≡ ok outcome
      → let out = Operations.rotate_secret cfg registry now id r e in
        (out.0
          ≡ json_body (record {
            status = 200;
            body = object (
                ("client_id", str id)
                ∷ ("client_secret", str (random_token e).0)
                ∷ ("previous_secret_valid_until", num (now +ℤ pos 600))
                ∷ []);
            no_store = true;
            extra_headers = [];
          }))
        × ((y : DynamicClientRecord) × ((k : String)
              → held out.1 k ≡ (if id == k then some y else held r k))
            × ((presented : String) (later : ℤ)
                → (verify_secret y presented later ≡ true) ↔ (
                    (hash_of (random_token e).0 ≡ hash_of presented)
                    ⊎ ((later <ℤ (now +ℤ pos 600)) × (h ≡ hash_of presented)))))
  unfolding Operations.rotate_secret generate_client_secret rotate_reply
  rotate_secret_lem now id h x r e outcome time managed found own on conf current answered =
      let new = hash_of (random_token e).0 in
      let y = (Registry.rotate_secret new now x).1 in
      let (changed, same_id, until) = rotated_client new now x time conf (rw current refl) in
      let is_rotated : outcome ≡ Registry.rotated y =
        laws.rotate_ok id new now r outcome managed.is_dynamic answered
        ∙ rw (found, changed) refl in
      rw (guarded_managed id r e _ managed, answered, is_rotated, until, same_id, own)
        (
          refl,
          (
            y,
            λ k.
                laws.applied (rotate id new now) r k managed.is_dynamic (outcome, answered)
                ∙ (unfold effect in
                    on_id_held id k (λ z. (Registry.rotate_secret new now z).1) x (held r) found),
            λ presented later. verify-rotate_iff x h new presented now later time on conf current,
          ),
        )
