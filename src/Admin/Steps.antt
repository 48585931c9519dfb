-- ===== src/Admin/Steps.antt =====
-- crates/oidc-core/src/admin.rs over the in-memory registry: what a request may do to the records.
use discord_oidc.Prelude.{
  ℕ, zero, suc, String, ◌≡◌, refl, inl, inr, true, false, Option, none, List, ok, is_some, arith,
  Option-cases, Result-cases, Bool-cases,
}
use discord_oidc.Prelude.Int.{ℤ}
use discord_oidc.Crates.{Crates}
use discord_oidc.Response.{CoreResponse}
use discord_oidc.Client.{ClientType, public, confidential, find}
use discord_oidc.Config.{Config}
use discord_oidc.Registry.{
  ClientMetadata, DynamicClientRecord, IssuedSecret, generate_client_id, is_dynamic_client_id,
  new_record, validate_metadata,
}
use discord_oidc.Registry.Ids.{is_dynamic-generate_client_id}
use discord_oidc.Registry.Metadata.{IsValidMetadata, validate_metadata_iff}
use discord_oidc.Registry.Record.{IsConsistent, has_secret, new_record-IsConsistent}
use discord_oidc.Registry.Memory.{InMemoryClientRegistry, memory_registry, insert}
use discord_oidc.Registry.Memory.Laws.{Operation, put, update, status, rotate, apply}
use discord_oidc.Util.{Entropy}
use discord_oidc.Admin.Operations.{
  CreateClientRequest, UpdateClientRequest, parse_body, or_invalid, static_conflict,
  dynamic_id_or_not_found, read_create, read_update, hash_of_issued, issue_secret, try_ids, guarded,
}

abbrev pub metadata_in : DynamicClientRecord → ClientMetadata
metadata_in x = record {
  display_name = x.display_name;
  owner_discord_user_id = x.owner_discord_user_id;
  redirect_uris = x.redirect_uris;
}

-- An id that the admin API manages: of the dynamic form, and not that of a static client.
pub record Manages (cfg : Config) (id : String) : Type 0 where
  pub is_dynamic : is_dynamic_client_id id ≡ true
  pub not_static : find cfg.clients id ≡ none

module _ ⦃c : Crates⦄ (cfg : Config) where
  -- A record that the admin API may store.
  pub record IsStorable (x : DynamicClientRecord) : Type 0 where
    pub managed : Manages cfg x.client_id
    pub consistent : IsConsistent x
    pub valid : IsValidMetadata (metadata_in x)

  abbrev pub Permitted : Operation → Type 0
  Permitted (put x) = IsStorable x
  Permitted (update id m now) = Manages cfg id × IsValidMetadata m
  Permitted (status id s now) = Manages cfg id
  Permitted (rotate id h now) = Manages cfg id

  -- At most one operation, and that a permitted one.
  pub data Step (r : InMemoryClientRegistry) : InMemoryClientRegistry → Type 0 where
    unchanged : Step r r
    operated : (op : Operation) → Permitted op → Step r (apply op r)

  pub guarded-Step :
      (id : String) (r : InMemoryClientRegistry) (e : Entropy)
      (done : CoreResponse × InMemoryClientRegistry × Entropy)
      → (Manages cfg id → Step r done.1)
      → Step r (guarded cfg id r e done).1
  unfolding guarded static_conflict dynamic_id_or_not_found
  guarded-Step id r e done h = elim (Option-cases (find cfg.clients id)) [
    | inr (x, found) ↦ rw (found, guarded, static_conflict) unchanged
    | inl free ↦ elim (Bool-cases (is_dynamic_client_id id)) [
      | inr other ↦ rw (free, other, guarded, static_conflict, dynamic_id_or_not_found) unchanged
      | inl dynamic ↦
          rw (free, dynamic, guarded, static_conflict, dynamic_id_or_not_found)
            (h (record { is_dynamic = dynamic; not_static = free }))
    ]
  ]

  or_invalid-IsValidMetadata :
      (shown owner : String) (uris : List String) (m : ClientMetadata)
      → or_invalid (validate_metadata shown owner uris) ≡ ok m
      → IsValidMetadata m
  or_invalid-IsValidMetadata shown owner uris m e =
      let checked : validate_metadata shown owner uris ≡ ok m =
        elim (Result-cases (validate_metadata shown owner uris)) [
          | inl (n, good) ↦ ground arith
          | inr (f, bad) ↦ absurd (ground arith)
        ] in
      let (same, valid) = (validate_metadata_iff shown owner uris m).0 checked in rw same at valid

  pub read_create-IsValidMetadata :
      (parse : String → Option CreateClientRequest) (body : Option String) (m : ClientMetadata)
      (t : ClientType)
      → read_create parse body ≡ ok (m, t)
      → IsValidMetadata m
  unfolding read_create
  read_create-IsValidMetadata parse body m t e = elim (Result-cases (parse_body parse body)) [
    | inr (f, bad) ↦ absurd (ground arith)
    | inl (req, good) ↦
        elim (Result-cases (
          or_invalid
            (validate_metadata req.display_name req.owner_discord_user_id req.redirect_uris))) [
              | inr (f, bad) ↦ absurd (ground arith)
              | inl (n, checked) ↦
                  or_invalid-IsValidMetadata req.display_name req.owner_discord_user_id
                    req.redirect_uris m (ground arith)
            ]
  ]

  pub read_update-IsValidMetadata :
      (parse : String → Option UpdateClientRequest) (body : Option String) (m : ClientMetadata)
      → read_update parse body ≡ ok m
      → IsValidMetadata m
  unfolding read_update
  read_update-IsValidMetadata parse body m e = elim (Result-cases (parse_body parse body)) [
    | inr (f, bad) ↦ absurd (ground arith)
    | inl (req, good) ↦
        or_invalid-IsValidMetadata req.display_name req.owner_discord_user_id req.redirect_uris m
          (ground arith)
  ]

  pub new_record-IsStorable :
      (m : ClientMetadata) (t : ClientType) (h : Option String) (now : ℤ) (e : Entropy)
      → IsValidMetadata m
      → is_some h ≡ has_secret t
      → find cfg.clients (generate_client_id e).0 ≡ none
      → IsStorable (new_record (generate_client_id e).0 m t h now)
  unfolding new_record
  new_record-IsStorable m t h now e valid secret free = record {
    managed = record { is_dynamic = is_dynamic-generate_client_id e; not_static = free };
    consistent = new_record-IsConsistent (generate_client_id e).0 m t h now secret;
    valid = valid;
  }

  pub insert_refused :
      (x : DynamicClientRecord) (r : InMemoryClientRegistry)
      → (insert x r).0 ≡ ok false
      → (insert x r).1 ≡ r
  unfolding insert
  insert_refused x r e = ground arith

  -- The attempts insert one record at most.
  pub try_ids-Step :
      (now : ℤ) (n : ℕ) (m : ClientMetadata) (t : ClientType) (secret : Option IssuedSecret)
      (r : InMemoryClientRegistry) (e : Entropy)
      → IsValidMetadata m
      → is_some (hash_of_issued secret) ≡ has_secret t
      → Step r (try_ids cfg memory_registry now n m t secret r e).1
  unfolding try_ids memory_registry apply insert
  try_ids-Step now zero m t secret r e valid s = unchanged
  try_ids-Step now (suc n) m t secret r e valid s =
      let (id, e') = generate_client_id e in
      let x = new_record id m t (hash_of_issued secret) now in
      elim (Option-cases (find cfg.clients id)) [
        | inr (y, taken) ↦ rw (taken, try_ids) (try_ids-Step now n m t secret r e' valid s)
        | inl free ↦ elim (Result-cases (insert x r).0) [
          | inl (true, good) ↦
              rw (free, good, try_ids, memory_registry)
                (operated (put x)
                  (new_record-IsStorable m t (hash_of_issued secret) now e valid s free))
          | inl (false, held) ↦
              rw (free, held, try_ids, memory_registry, insert_refused x r held)
                (try_ids-Step now n m t secret r e' valid s)
          | inr (f, failed) ↦ absurd (ground arith)
        ]
      ]

  pub has_secret-issue_secret :
      (t : ClientType) (e : Entropy) → is_some (hash_of_issued (issue_secret t e).0) ≡ has_secret t
  unfolding issue_secret hash_of_issued
  has_secret-issue_secret public e = refl
  has_secret-issue_secret confidential e = refl
