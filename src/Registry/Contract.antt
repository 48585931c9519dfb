-- ===== src/Registry/Contract.antt =====
-- The contract of `DynamicClientRegistry` (registry.rs), over the records that a registry holds under
-- ids of the dynamic form. An operation that fails may or may not have happened.
use Prim.Native.Nat.{Ordering}
use Prim.Native.String.{compare}
use discord_oidc.Prelude.{
  String, ◌≡◌, ◌≢◌, ◌⊎◌, ◌↔◌, List, [], ◌∷◌, Bool, true, not, Option, none, some, Result, ok, err,
  is_some,
}
use discord_oidc.Prelude.Int.{ℤ}
use discord_oidc.Registry
use discord_oidc.Registry.{
  DynamicClientRecord, ClientMetadata, ClientStatus, active, disabled, DynamicClientRegistry,
  RotateOutcome, NoSecret, apply_metadata, enable, disable, is_dynamic_client_id,
}
use discord_oidc.Registry.Memory.Laws.{Operation, put, update, status, rotate}
use discord_oidc.Registry.Memory.Effect.{effect}

-- The id that an operation is about.
abbrev pub subject : Operation → String
subject (put x) = x.client_id
subject (update id m now) = id
subject (status id s now) = id
subject (rotate id h now) = id

abbrev pub changed {ℓ} :
    {A : Type ℓ} → (DynamicClientRecord → A) → Option DynamicClientRecord → Option A
changed f none = none
changed f (some x) = some (f x)

abbrev pub with_status : ClientStatus → ℤ → DynamicClientRecord → DynamicClientRecord
with_status active now = enable now
with_status disabled now = disable now

-- What a rotation of a record returns.
abbrev pub outcome_of : Result ℤ NoSecret × DynamicClientRecord → RotateOutcome
outcome_of (ok until, x) = Registry.rotated x
outcome_of (err e, x) = Registry.RotateOutcome.no_secret

abbrev pub rotation_outcome : String → ℤ → Option DynamicClientRecord → RotateOutcome
rotation_outcome h now none = Registry.RotateOutcome.not_found
rotation_outcome h now (some x) = outcome_of (Registry.rotate_secret h now x)

-- A record is in a list.
abbrev pub IsIn : DynamicClientRecord → List DynamicClientRecord → Type 0
IsIn x [] = ⊥
IsIn x (y ∷ ys) = (y ≡ x) ⊎ IsIn x ys

-- No record stands before one with a smaller id.
abbrev pub Front : DynamicClientRecord → List DynamicClientRecord → Type 0
Front x [] = Unit
Front x (y ∷ ys) = compare x.client_id y.client_id ≢ Ordering.gt

abbrev pub IsSorted : List DynamicClientRecord → Type 0
IsSorted [] = Unit
IsSorted (x ∷ xs) = Front x xs × IsSorted xs

module _ {R : Type 0} (o : DynamicClientRegistry R) where
  abbrev pub state_after : Operation → R → R
  state_after (put x) r = (o.insert x r).1
  state_after (update id m now) r = (o.update_metadata id m now r).1
  state_after (status id s now) r = (o.set_status id s now r).1
  state_after (rotate id h now) r = (o.rotate_secret id h now r).1

  abbrev pub Succeeds : Operation → R → Type 0
  Succeeds (put x) r = (b : Bool) × ((o.insert x r).0 ≡ ok b)
  Succeeds (update id m now) r =
      (y : Option DynamicClientRecord) × ((o.update_metadata id m now r).0 ≡ ok y)
  Succeeds (status id s now) r =
      (y : Option DynamicClientRecord) × ((o.set_status id s now r).0 ≡ ok y)
  Succeeds (rotate id h now) r = (y : RotateOutcome) × ((o.rotate_secret id h now r).0 ≡ ok y)

  pub record IsRegistry (held : R → String → Option DynamicClientRecord) : Type 0 where
    pub get_ok :
        (id : String) (r : R) (x : Option DynamicClientRecord)
        → is_dynamic_client_id id ≡ true
        → o.get id r ≡ ok x
        → x ≡ held r id
    pub list_ok :
        (r : R) (xs : List DynamicClientRecord) (x : DynamicClientRecord)
        → o.list r ≡ ok xs
        → IsIn x xs ↔ ((id : String) × (held r id ≡ some x))
    pub list_sorted : (r : R) (xs : List DynamicClientRecord) → o.list r ≡ ok xs → IsSorted xs
    pub insert_ok :
        (x : DynamicClientRecord) (r : R) (b : Bool)
        → is_dynamic_client_id x.client_id ≡ true
        → (o.insert x r).0 ≡ ok b
        → b ≡ not (is_some (held r x.client_id))
    pub update_ok :
        (id : String) (m : ClientMetadata) (now : ℤ) (r : R) (y : Option DynamicClientRecord)
        → is_dynamic_client_id id ≡ true
        → (o.update_metadata id m now r).0 ≡ ok y
        → y ≡ changed (apply_metadata m now) (held r id)
    pub status_ok :
        (id : String) (s : ClientStatus) (now : ℤ) (r : R) (y : Option DynamicClientRecord)
        → is_dynamic_client_id id ≡ true
        → (o.set_status id s now r).0 ≡ ok y
        → y ≡ changed (with_status s now) (held r id)
    pub rotate_ok :
        (id h : String) (now : ℤ) (r : R) (y : RotateOutcome)
        → is_dynamic_client_id id ≡ true
        → (o.rotate_secret id h now r).0 ≡ ok y
        → y ≡ rotation_outcome h now (held r id)
    pub applied :
        (op : Operation) (r : R) (k : String)
        → is_dynamic_client_id (subject op) ≡ true
        → Succeeds op r
        → held (state_after op r) k ≡ effect op k (held r k)
    pub otherwise :
        (op : Operation) (r : R) (k : String)
        → is_dynamic_client_id (subject op) ≡ true
        → (held (state_after op r) k ≡ held r k)
          ⊎ (held (state_after op r) k ≡ effect op k (held r k))
