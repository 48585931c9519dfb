-- ===== src/Registry/Memory/Laws.antt =====
-- What the registry keeps: records under their own ids, in order, each consistent.
use discord_oidc.Prelude.{
  String, ◌≡◌, refl, inl, inr, Option, none, some, Result, ok, err, arith, eq_iff, Option-cases,
}
use discord_oidc.Prelude.Int.{ℤ}
use discord_oidc.Prelude.Dict
use discord_oidc.Prelude.Dict.{get-insert, get-empty}
use discord_oidc.Prelude.Dict.Order.{IsOrdered, insert-IsOrdered}
use discord_oidc.Registry
use discord_oidc.Registry.{
  DynamicClientRecord, ClientMetadata, ClientStatus, active, disabled, apply_metadata, enable,
  disable, RotateOutcome,
}
use discord_oidc.Registry.Record.{
  IsConsistent, transition, replace_metadata, to_disabled, to_active, rotation, Transition,
  transition-IsConsistent, transition-SameIdentity,
}
use discord_oidc.Registry.Memory.{
  InMemoryClientRegistry, insert, mutate, update_metadata, set_status, rotate_secret,
  settle_rotation,
}

pub record IsValidStore (r : InMemoryClientRegistry) : Type 0 where
  pub ordered : IsOrdered r.records
  pub consistent :
      (id : String) (x : DynamicClientRecord) → Dict.get id r.records ≡ some x → IsConsistent x
  pub own_id :
      (id : String) (x : DynamicClientRecord) → Dict.get id r.records ≡ some x → x.client_id ≡ id

-- The calls that change the registry.
pub data Operation : Type 0 where
  put : DynamicClientRecord → Operation
  update : String → ClientMetadata → ℤ → Operation
  status : String → ClientStatus → ℤ → Operation
  rotate : String → String → ℤ → Operation

unfoldable pub apply : Operation → InMemoryClientRegistry → InMemoryClientRegistry
apply (put x) r = (insert x r).1
apply (update id m now) r = (update_metadata id m now r).1
apply (status id s now) r = (set_status id s now r).1
apply (rotate id h now) r = (rotate_secret id h now r).1

-- A record that stays under its key after a transition.
write-IsValidStore :
    (r : InMemoryClientRegistry) (id : String) (x : DynamicClientRecord)
    → IsValidStore r
    → IsConsistent x
    → x.client_id ≡ id
    → IsValidStore (record r { records = Dict.insert id x r.records })
write-IsValidStore r id x v good own = record {
  ordered = insert-IsOrdered id x r.records v.ordered;
  consistent = λ k y e.
      ground
        (arith, get-insert id k x r.records, eq_iff id k, subst_good x y good, v.consistent k y);
  own_id = λ k y e. ground (arith, get-insert id k x r.records, eq_iff id k, v.own_id k y);
}
  where
    subst_good : (x y : DynamicClientRecord) → IsConsistent x → x ≡ y → IsConsistent y
    subst_good x y g e = rw e at g

transition-IsValidStore :
    (r : InMemoryClientRegistry) (id : String) (x : DynamicClientRecord) (k : Transition)
    → IsValidStore r
    → Dict.get id r.records ≡ some x
    → IsValidStore (record r { records = Dict.insert id (transition k x) r.records })
transition-IsValidStore r id x k v found =
    let same = transition-SameIdentity k x in
    write-IsValidStore r id (transition k x) v
      (transition-IsConsistent k x (v.consistent id x found))
      (cc (same.client_id, v.own_id id x found))

mutate-IsValidStore :
    (r : InMemoryClientRegistry) (id : String) (k : Transition)
    → IsValidStore r
    → IsValidStore (mutate (transition k) id r).1
unfolding mutate
mutate-IsValidStore r id k v = elim (Option-cases (Dict.get id r.records)) [
  | inl absent ↦ rw (absent, mutate) v
  | inr (x, found) ↦ rw (found, mutate) (transition-IsValidStore r id x k v found)
]

settle_rotation_state :
    (id : String) (r : InMemoryClientRegistry)
    (p : Result ℤ Registry.NoSecret × DynamicClientRecord)
    → (settle_rotation id r p).1 ≡ record r { records = Dict.insert id p.1 r.records }
unfolding settle_rotation
settle_rotation_state id r (ok until, x) = refl
settle_rotation_state id r (err e, x) = refl

-- A rotation writes the record back, rotated or as it was.
pub rotate_secret_state :
    (id h : String) (now : ℤ) (r : InMemoryClientRegistry)
    → (rotate_secret id h now r).1 ≡ (mutate (transition (rotation h now)) id r).1
unfolding rotate_secret mutate transition
rotate_secret_state id h now r =
    elim (Dict.get id r.records)
      as (λ o.
        (elim o
          as (λ _. Result RotateOutcome Registry.RegistryStoreError × InMemoryClientRegistry) [
            | none ↦ (ok Registry.not_found, r)
            | some x ↦ settle_rotation id r (Registry.rotate_secret h now x)
          ]).1
        ≡ (elim o
            as (λ _.
              Result (Option DynamicClientRecord) Registry.RegistryStoreError
              × InMemoryClientRegistry) [
                | none ↦ (ok none, r)
                | some x ↦ (
                  ok (some (Registry.rotate_secret h now x).1),
                  record r {
                    records = Dict.insert id (Registry.rotate_secret h now x).1 r.records;
                  },
                )
              ]).1) [
                | none ↦ refl
                | some x ↦ settle_rotation_state id r (Registry.rotate_secret h now x)
              ]

-- What an operation brings in from outside is consistent.
abbrev pub Inserts : Operation → Type 0
Inserts (put x) = IsConsistent x
Inserts _ = Unit

-- Every operation keeps the registry's invariant: records in the order of their ids, each under its
-- own id and consistent, as long as what is inserted is consistent.
pub apply-IsValidStore :
    (k : Operation) (r : InMemoryClientRegistry)
    → Inserts k
    → IsValidStore r
    → IsValidStore (apply k r)
unfolding apply insert update_metadata set_status
apply-IsValidStore (put x) r good v = elim (Option-cases (Dict.get x.client_id r.records)) [
  | inl free ↦ rw (free, apply, insert) (write-IsValidStore r x.client_id x v good refl)
  | inr (y, taken) ↦ rw (taken, apply, insert) v
]
apply-IsValidStore (update id m now) r good v =
    unfold transition in mutate-IsValidStore r id (replace_metadata m now) v
apply-IsValidStore (status id active now) r good v =
    unfold transition in mutate-IsValidStore r id (to_active now) v
apply-IsValidStore (status id disabled now) r good v =
    unfold transition in mutate-IsValidStore r id (to_disabled now) v
apply-IsValidStore (rotate id h now) r good v =
    rw rotate_secret_state (mutate-IsValidStore r id (rotation h now) v)
