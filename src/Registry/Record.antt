-- ===== src/Registry/Record.antt =====
-- The invariant of a dynamic client's record (registry.rs), its transitions and its identity.
use discord_oidc.Prelude.{String, ◌≡◌, refl, Bool, true, false, Option, is_some, arith}
use discord_oidc.Prelude.Int.{ℤ}
use discord_oidc.Client.{ClientType, public, confidential, supported_scopes}
use discord_oidc.Registry.{
  ClientStatus, active, disabled, DynamicClientRecord, ClientMetadata, method_of, new_record,
  apply_metadata, disable, enable, rotate_secret,
}

-- A confidential client has a secret and a public one has none.
abbrev pub has_secret : ClientType → Bool
has_secret public = false
has_secret confidential = true

abbrev pub is_disabled : ClientStatus → Bool
is_disabled active = false
is_disabled disabled = true

pub record IsConsistent (r : DynamicClientRecord) : Type 0 where
  -- the fixed policy of the type
  pub scopes : r.allowed_scopes ≡ supported_scopes
  pub method : r.token_endpoint_auth_method ≡ method_of r.client_type
  -- a secret exactly for a confidential client
  pub secret : is_some r.current_secret_hash ≡ has_secret r.client_type
  -- a window exactly for a previous secret
  pub window : is_some r.previous_secret_valid_until ≡ is_some r.previous_secret_hash
  -- a time of disabling exactly while disabled
  pub disabling : is_some r.disabled_at ≡ is_disabled r.status

-- The transitions that the registry applies to a stored record.
pub data Transition : Type 0 where
  replace_metadata : ClientMetadata → ℤ → Transition
  to_disabled to_active : ℤ → Transition
  rotation : String → ℤ → Transition

unfoldable pub transition : Transition → DynamicClientRecord → DynamicClientRecord
unfolding apply_metadata disable enable rotate_secret
transition (replace_metadata m now) r = apply_metadata m now r
transition (to_disabled now) r = disable now r
transition (to_active now) r = enable now r
transition (rotation h now) r = (rotate_secret h now r).1

-- A new record is consistent if it was given a secret's hash exactly for a confidential client.
pub new_record-IsConsistent :
    (id : String) (m : ClientMetadata) (t : ClientType) (h : Option String) (now : ℤ)
    → is_some h ≡ has_secret t
    → IsConsistent (new_record id m t h now)
unfolding new_record
new_record-IsConsistent id m t h now e = record {
  scopes = refl;
  method = refl;
  secret = e;
  window = refl;
  disabling = refl;
}

-- Every transition keeps a record consistent.
pub transition-IsConsistent :
    (k : Transition) (r : DynamicClientRecord) → IsConsistent r → IsConsistent (transition k r)
unfolding transition
transition-IsConsistent (replace_metadata m now) r v = ground arith
transition-IsConsistent k r v = ground arith

-- The fields that no transition changes.
pub record SameIdentity (r s : DynamicClientRecord) : Type 0 where
  pub client_id : s.client_id ≡ r.client_id
  pub client_type : s.client_type ≡ r.client_type
  pub method : s.token_endpoint_auth_method ≡ r.token_endpoint_auth_method
  pub scopes : s.allowed_scopes ≡ r.allowed_scopes
  pub created_at : s.created_at ≡ r.created_at

-- No transition changes a record's id, type, method, scopes or time of creation.
pub transition-SameIdentity :
    (k : Transition) (r : DynamicClientRecord) → SameIdentity r (transition k r)
unfolding transition
transition-SameIdentity (replace_metadata m now) r = ground arith
transition-SameIdentity k r = ground arith

-- Disabling and enabling are idempotent: a second application, at any time, changes nothing.
status_idempotent :
    (r : DynamicClientRecord) (now later : ℤ)
    → (disable later (disable now r) ≡ disable now r) × (enable later (enable now r) ≡ enable now r)
unfolding disable enable
status_idempotent r now later = ground arith
