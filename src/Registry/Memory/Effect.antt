-- ===== src/Registry/Memory/Effect.antt =====
-- The registry as a family of independent records.
use discord_oidc.Prelude.{
  String, ◌≡◌, inl, inr, Option, none, some, arith, eq_iff, ◌==◌, if◌then◌else◌, Option-cases,
}
use discord_oidc.Prelude.Dict
use discord_oidc.Prelude.Dict.{get-insert, get-empty}
use discord_oidc.Registry
use discord_oidc.Registry.{
  DynamicClientRecord, ClientMetadata, ClientStatus, active, disabled, apply_metadata, enable,
  disable, RotateOutcome,
}
use discord_oidc.Registry.Record.{transition}
use discord_oidc.Registry.Memory.{
  InMemoryClientRegistry, insert, mutate, update_metadata, set_status,
}
use discord_oidc.Registry.Memory.Laws.{
  Operation, put, update, status, rotate, apply, rotate_secret_state,
}

-- What an operation does to the record under one id: each record is a machine of its own.
abbrev pub on_id :
    String
    → String
    → (DynamicClientRecord → DynamicClientRecord)
    → Option DynamicClientRecord
    → Option DynamicClientRecord
on_id id k f none = none
on_id id k f (some x) = if id == k then some (f x) else some x

abbrev pub put_free :
    DynamicClientRecord → String → Option DynamicClientRecord → Option DynamicClientRecord
put_free x k none = if x.client_id == k then some x else none
put_free x k (some y) = some y

unfoldable pub effect : Operation → String → Option DynamicClientRecord → Option DynamicClientRecord
effect (put x) k held = put_free x k held
effect (update id m now) k held = on_id id k (apply_metadata m now) held
effect (status id active now) k held = on_id id k (enable now) held
effect (status id disabled now) k held = on_id id k (disable now) held
effect (rotate id h now) k held = on_id id k (λ x. (Registry.rotate_secret h now x).1) held

mutate_effect :
    (f : DynamicClientRecord → DynamicClientRecord) (id k : String) (r : InMemoryClientRegistry)
    → Dict.get k (mutate f id r).1.records ≡ on_id id k f (Dict.get k r.records)
unfolding mutate
mutate_effect f id k r = elim (Option-cases (Dict.get id r.records)) [
  | inl absent ↦ ground (arith, eq_iff id k)
  | inr (x, found) ↦ ground (arith, get-insert id k (f x) r.records, eq_iff id k)
]

-- The registry refines a family of independent records: an operation changes the record under its
-- own id by that record's transition, leaves every other id as it was, and never overwrites a
-- record by an insertion.
pub apply-effect :
    (op : Operation) (k : String) (r : InMemoryClientRegistry)
    → Dict.get k (apply op r).records ≡ effect op k (Dict.get k r.records)
unfolding apply insert update_metadata set_status effect
apply-effect (put x) k r =
    ground (arith, get-insert x.client_id k x r.records, eq_iff x.client_id k)
apply-effect (update id m now) k r = mutate_effect (apply_metadata m now) id k r
apply-effect (status id active now) k r = mutate_effect (enable now) id k r
apply-effect (status id disabled now) k r = mutate_effect (disable now) id k r
apply-effect (rotate id h now) k r =
    rw rotate_secret_state
      (unfold transition in mutate_effect (λ x. (Registry.rotate_secret h now x).1) id k r)
