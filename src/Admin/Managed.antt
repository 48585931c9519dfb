-- ===== src/Admin/Managed.antt =====
-- crates/oidc-core/src/admin.rs over the in-memory registry: the invariant of a registry that only
-- the admin API writes to.
use discord_oidc.Prelude.{
  String, ◌≡◌, true, false, inl, inr, Option, none, some, arith, eq_iff, ◌==◌, if◌then◌else◌,
  Option-cases, Bool-cases,
}
use discord_oidc.Prelude.Int.{ℤ}
use discord_oidc.Prelude.Dict
use discord_oidc.Crates.{Crates}
use discord_oidc.Config.{Config}
use discord_oidc.Registry.{
  ClientMetadata, DynamicClientRecord, apply_metadata, disable, enable, active, disabled,
}
use discord_oidc.Registry
use discord_oidc.Registry.Metadata.{IsValidMetadata}
use discord_oidc.Registry.Memory.{InMemoryClientRegistry, memory_registry}
use discord_oidc.Registry.Memory.Laws.{
  IsValidStore, Operation, put, update, status, rotate, apply, Inserts, apply-IsValidStore,
}
use discord_oidc.Registry.Memory.Effect.{effect, on_id, apply-effect}
use discord_oidc.Util.{Entropy}
use discord_oidc.Admin.{AdminRequest, handle_admin_request}
use discord_oidc.Admin.Operations.{CreateClientRequest, UpdateClientRequest}
use discord_oidc.Admin.Steps.{Manages, metadata_in, Permitted, Step, unchanged, operated}
use discord_oidc.Admin.Requests.{handle_admin_request-Step}

module _ ⦃c : Crates⦄ (cfg : Config) where
  pub record IsManaged (r : InMemoryClientRegistry) : Type 0 where
    pub store : IsValidStore r
    pub managed :
        (id : String) (x : DynamicClientRecord) → Dict.get id r.records ≡ some x → Manages cfg id
    pub valid :
        (id : String) (x : DynamicClientRecord)
        → Dict.get id r.records ≡ some x
        → IsValidMetadata (metadata_in x)

  -- What is held under an id may stand there.
  abbrev Fits : String → Option DynamicClientRecord → Type 0
  Fits k none = Unit
  Fits k (some x) = Manages cfg k × IsValidMetadata (metadata_in x)

  on_id-Fits :
      (id k : String) (f : DynamicClientRecord → DynamicClientRecord)
      (o : Option DynamicClientRecord)
      → ((x : DynamicClientRecord) → metadata_in (f x) ≡ metadata_in x)
      → Fits k o
      → Fits k (on_id id k f o)
  on_id-Fits id k f none h g = tt
  on_id-Fits id k f (some y) h (managed, valid) =
      elim (id == k) as (λ b. Fits k (if b then some (f y) else some y)) [
        | true ↦ (managed, rw (h y) valid)
        | false ↦ (managed, valid)
      ]

  update-Fits :
      (id k : String) (m : ClientMetadata) (now : ℤ) (o : Option DynamicClientRecord)
      → IsValidMetadata m
      → Fits k o
      → Fits k (on_id id k (apply_metadata m now) o)
  unfolding apply_metadata
  update-Fits id k m now none v g = tt
  update-Fits id k m now (some y) v (managed, valid) =
      elim (id == k) as (λ b. Fits k (if b then some (apply_metadata m now y) else some y)) [
        | true ↦ (managed, v)
        | false ↦ (managed, valid)
      ]

  disable_metadata :
      (now : ℤ) (x : DynamicClientRecord) → metadata_in (disable now x) ≡ metadata_in x
  unfolding disable
  disable_metadata now x = ground arith

  enable_metadata : (now : ℤ) (x : DynamicClientRecord) → metadata_in (enable now x) ≡ metadata_in x
  unfolding enable
  enable_metadata now x = ground arith

  rotate_metadata :
      (h : String) (now : ℤ) (x : DynamicClientRecord)
      → metadata_in (Registry.rotate_secret h now x).1 ≡ metadata_in x
  unfolding Registry.rotate_secret
  rotate_metadata h now x = ground arith

  effect-Fits :
      (op : Operation) (k : String) (o : Option DynamicClientRecord)
      → Permitted cfg op
      → Fits k o
      → Fits k (effect op k o)
  unfolding effect
  effect-Fits (put x) k none good g = elim (Bool-cases (x.client_id == k)) [
    | inr differ ↦ rw differ tt
    | inl found ↦
        let same : x.client_id ≡ k = ground (arith, eq_iff x.client_id k) in
        rw found (rw same at good.managed, good.valid)
  ]
  effect-Fits (put x) k (some y) good g = g
  effect-Fits (update id m now) k o good g = update-Fits id k m now o good.1 g
  effect-Fits (status id active now) k o good g =
      on_id-Fits id k (enable now) o (enable_metadata now) g
  effect-Fits (status id disabled now) k o good g =
      on_id-Fits id k (disable now) o (disable_metadata now) g
  effect-Fits (rotate id h now) k o good g =
      on_id-Fits id k (λ x. (Registry.rotate_secret h now x).1) o (rotate_metadata h now) g

  Permitted-Inserts : (op : Operation) → Permitted cfg op → Inserts op
  Permitted-Inserts (put x) good = good.consistent
  Permitted-Inserts (update id m now) good = tt
  Permitted-Inserts (status id s now) good = tt
  Permitted-Inserts (rotate id h now) good = tt

  held-Fits :
      (r : InMemoryClientRegistry) (k : String) → IsManaged r → Fits k (Dict.get k r.records)
  held-Fits r k v = elim (Option-cases (Dict.get k r.records)) [
    | inl absent ↦ rw absent tt
    | inr (x, found) ↦ rw found (v.managed k x found, v.valid k x found)
  ]

  Step-IsManaged : (r s : InMemoryClientRegistry) → Step cfg r s → IsManaged r → IsManaged s
  Step-IsManaged r s unchanged v = v
  Step-IsManaged r s (operated op good) v = record {
    store = apply-IsValidStore op r (Permitted-Inserts op good) v.store;
    managed = λ k x e. (at k x e).0;
    valid = λ k x e. (at k x e).1;
  }
    where
      at :
          (k : String) (x : DynamicClientRecord)
          → Dict.get k (apply op r).records ≡ some x
          → Fits k (some x)
      at k x e =
          let fits : Fits k (Dict.get k (apply op r).records) =
            rw (apply-effect op k r)
              (effect-Fits op k (Dict.get k r.records) good (held-Fits r k v)) in
          rw e at fits

  -- Every admin request keeps the in-memory registry as the admin API builds it: the records in the order of
  -- their ids, each under its own id, consistent, with valid metadata, and under an id of the
  -- dynamic form that no static client has.
  pub handle_admin_request-IsManaged :
      (parse_create : String → Option CreateClientRequest)
      (parse_update : String → Option UpdateClientRequest) (now : ℤ) (admin_token : Option String)
      (req : AdminRequest) (r : InMemoryClientRegistry) (e : Entropy)
      → IsManaged r
      → IsManaged
          (handle_admin_request parse_create parse_update cfg memory_registry now admin_token req r
            e).1
  handle_admin_request-IsManaged pc pu now t req r e v =
      Step-IsManaged r _ (handle_admin_request-Step pc pu cfg now t req r e) v
