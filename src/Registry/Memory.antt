-- ===== src/Registry/Memory.antt =====
-- `InMemoryClientRegistry` of registry.rs.
pub mod Laws
pub mod Effect
use discord_oidc.Prelude.{
  String, Bool, true, false, Option, none, some, List, Result, ok, err, is_some, if◌then◌else◌,
}
use discord_oidc.Prelude.Int.{ℤ}
use discord_oidc.Prelude.Dict
use discord_oidc.Prelude.Dict.{Dict}
use discord_oidc.Registry
use discord_oidc.Registry.{
  DynamicClientRecord, ClientMetadata, ClientStatus, active, disabled, apply_metadata, enable,
  disable, RegistryStoreError, RotateOutcome, NoSecret, DynamicClientRegistry,
}

pub record InMemoryClientRegistry : Type 0 where
  pub records : Dict DynamicClientRecord

unfoldable pub new_registry : InMemoryClientRegistry
new_registry = record { records = Dict.empty }

unfoldable pub get :
    String → InMemoryClientRegistry → Result (Option DynamicClientRecord) RegistryStoreError
get id r = ok (Dict.get id r.records)

unfoldable pub list : InMemoryClientRegistry → Result (List DynamicClientRecord) RegistryStoreError
list r = ok (Dict.values r.records)

unfoldable pub insert :
    DynamicClientRecord
    → InMemoryClientRegistry
    → Result Bool RegistryStoreError × InMemoryClientRegistry
insert x r =
    if is_some (Dict.get x.client_id r.records)
    then (ok false, r)
    else (ok true, record r { records = Dict.insert x.client_id x r.records })

-- A change through `get_mut`, which leaves the record under its key.
unfoldable pub mutate :
    (DynamicClientRecord → DynamicClientRecord)
    → String
    → InMemoryClientRegistry
    → Result (Option DynamicClientRecord) RegistryStoreError × InMemoryClientRegistry
mutate f id r = elim (Dict.get id r.records) [
  | none ↦ (ok none, r)
  | some x ↦ (ok (some (f x)), record r { records = Dict.insert id (f x) r.records })
]

unfoldable pub update_metadata :
    String
    → ClientMetadata
    → ℤ
    → InMemoryClientRegistry
    → Result (Option DynamicClientRecord) RegistryStoreError × InMemoryClientRegistry
unfolding mutate
update_metadata id m now r = mutate (apply_metadata m now) id r

unfoldable pub set_status :
    String
    → ClientStatus
    → ℤ
    → InMemoryClientRegistry
    → Result (Option DynamicClientRecord) RegistryStoreError × InMemoryClientRegistry
unfolding mutate
set_status id active now r = mutate (enable now) id r
set_status id disabled now r = mutate (disable now) id r

-- What the result of a record's rotation does.
unfoldable pub settle_rotation :
    String
    → InMemoryClientRegistry
    → Result ℤ NoSecret × DynamicClientRecord
    → Result RotateOutcome RegistryStoreError × InMemoryClientRegistry
settle_rotation id r (ok until, x) =
    (ok (Registry.rotated x), record r { records = Dict.insert id x r.records })
settle_rotation id r (err e, x) =
    (ok Registry.RotateOutcome.no_secret, record r { records = Dict.insert id x r.records })

unfoldable pub rotate_secret :
    String
    → String
    → ℤ
    → InMemoryClientRegistry
    → Result RotateOutcome RegistryStoreError × InMemoryClientRegistry
unfolding settle_rotation
rotate_secret id h now r = elim (Dict.get id r.records) [
  | none ↦ (ok Registry.not_found, r)
  | some x ↦ settle_rotation id r (Registry.rotate_secret h now x)
]

unfoldable pub memory_registry : DynamicClientRegistry InMemoryClientRegistry
memory_registry = record {
  get = get;
  list = list;
  insert = insert;
  update_metadata = update_metadata;
  set_status = set_status;
  rotate_secret = rotate_secret;
}
