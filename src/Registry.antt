-- ===== src/Registry.antt =====
-- crates/oidc-core/src/registry.rs: dynamic clients, their validation and their transitions. The
-- registry that keeps them is `Registry.Memory`.
pub mod Metadata
pub mod Ids
pub mod Record
pub mod Rotation
pub mod Memory
pub mod Contract
use Prim.Native.String
use discord_oidc.Prelude.{
  ℕ, String, len, Bool, true, false, not, ◌&&◌, ◌||◌, Option, none, some, List, [], ◌∷◌, Result, ok,
  err, ◌>>=◌, ◌>>◌, all, contains, is_empty, is_some, is_some_and, length, ltb, leb, eqb,
  if◌then◌else◌,
}
use discord_oidc.Prelude.Text.{
  as_bytes, is_ascii_digit, is_ascii_alphanumeric, is_empty_text, trim, strip_prefix,
}
use discord_oidc.Prelude.Int.{ℤ, pos, add_i64, ltb_ℤ}
use discord_oidc.Crates.{Crates}
use discord_oidc.Crates.Compare.{ct_eq_text}
use discord_oidc.Util.{Entropy, fill_bytes, b64url_encode, random_token, sha256_b64url}
use discord_oidc.Client.{
  ClientConfig, ClientType, public, confidential, is_confidential, TokenEndpointAuthMethod, no_auth,
  client_secret_basic, supported_scopes, is_valid_redirect_uri,
}

abbrev pub client_id_prefix : String
client_id_prefix = "oji_"

abbrev pub client_id_bytes : ℕ
client_id_bytes = 16

abbrev pub max_display_name_bytes : ℕ
max_display_name_bytes = 128

abbrev pub max_redirect_uris : ℕ
max_redirect_uris = 16

abbrev pub secret_rotation_overlap_secs : ℤ
secret_rotation_overlap_secs = pos 600

pub data ClientStatus : Type 0 where
  active disabled : ClientStatus

pub record DynamicClientRecord : Type 0 where
  pub client_id : String
  pub display_name : String
  pub owner_discord_user_id : String
  pub redirect_uris : List String
  pub client_type : ClientType
  pub token_endpoint_auth_method : TokenEndpointAuthMethod
  pub allowed_scopes : List String
  pub status : ClientStatus
  pub current_secret_hash : Option String
  pub previous_secret_hash : Option String
  pub previous_secret_valid_until : Option ℤ
  pub created_at : ℤ
  pub updated_at : ℤ
  pub disabled_at : Option ℤ

pub record ClientMetadata : Type 0 where
  pub display_name : String
  pub owner_discord_user_id : String
  pub redirect_uris : List String

pub data ValidationError : Type 0 where
  display_name owner_snowflake redirect_count redirect_duplicate : ValidationError
  redirect_uri : String → ValidationError

-- `is_snowflake`, of config.rs.
unfoldable pub is_snowflake : String → Bool
is_snowflake value = leb 15 (len value) && leb (len value) 22 && all is_ascii_digit (as_bytes value)

module _ ⦃c : Crates⦄ where
  -- The loop over the redirect URIs, with those seen so far.
  unfoldable pub check_uris : List String → List String → Result (Unit {0}) ValidationError
  check_uris seen [] = ok tt
  check_uris seen (uri ∷ uris) =
      if not (is_valid_redirect_uri uri)
      then err (redirect_uri uri)
      else if contains seen uri
      then err redirect_duplicate
      else check_uris (uri ∷ seen) uris

  unfoldable pub validate_metadata :
      String → String → List String → Result ClientMetadata ValidationError
  validate_metadata shown owner uris =
      let name = trim shown in
      if is_empty_text name || ltb max_display_name_bytes (len name)
      then err display_name
      else if not (is_snowflake owner)
      then err owner_snowflake
      else if is_empty uris || ltb max_redirect_uris (length uris)
      then err redirect_count
      else do
        check_uris [] uris
        ok (record { display_name = name; owner_discord_user_id = owner; redirect_uris = uris })

-- The method of a client type.
abbrev pub method_of : ClientType → TokenEndpointAuthMethod
method_of public = no_auth
method_of confidential = client_secret_basic

unfoldable pub fixed_policy : ClientType → List String × TokenEndpointAuthMethod
fixed_policy t = (supported_scopes, method_of t)

module _ ⦃c : Crates⦄ where
  unfoldable pub generate_client_id : Entropy → String × Entropy
  generate_client_id e =
      let (buf, e') = fill_bytes client_id_bytes e in
      (String.◌++◌ client_id_prefix (b64url_encode buf), e')

unfoldable pub is_dynamic_client_id : String → Bool
is_dynamic_client_id client_id = elim (strip_prefix client_id_prefix client_id) [
  | none ↦ false
  | some rest ↦
      eqb (len rest) 22
      && all (λ b. is_ascii_alphanumeric b || eqb b b'-' || eqb b b'_') (as_bytes rest)
]

pub record IssuedSecret : Type 0 where
  pub plaintext : String
  pub hash : String

module _ ⦃c : Crates⦄ where
  unfoldable pub generate_client_secret : Entropy → IssuedSecret × Entropy
  generate_client_secret e =
      let (plaintext, e') = random_token e in
      let hash = sha256_b64url (as_bytes plaintext) in
      (record { plaintext = plaintext; hash = hash }, e')

pub data NoSecret : Type 0 where
  no_secret : NoSecret

-- The methods of `DynamicClientRecord`.
unfoldable pub new_record :
    String → ClientMetadata → ClientType → Option String → ℤ → DynamicClientRecord
unfolding fixed_policy
new_record id metadata t secret_hash now =
    let (scopes, method) = fixed_policy t in
    record {
      client_id = id;
      display_name = metadata.display_name;
      owner_discord_user_id = metadata.owner_discord_user_id;
      redirect_uris = metadata.redirect_uris;
      client_type = t;
      token_endpoint_auth_method = method;
      allowed_scopes = scopes;
      status = active;
      current_secret_hash = secret_hash;
      previous_secret_hash = none;
      previous_secret_valid_until = none;
      created_at = now;
      updated_at = now;
      disabled_at = none;
    }

abbrev pub status_is_active : ClientStatus → Bool
status_is_active active = true
status_is_active disabled = false

unfoldable pub is_active : DynamicClientRecord → Bool
is_active r = status_is_active r.status

unfoldable pub to_client_config : DynamicClientRecord → ClientConfig
to_client_config r = record {
  client_id = r.client_id;
  redirect_uris = r.redirect_uris;
  allowed_scopes = r.allowed_scopes;
  client_type = r.client_type;
  token_endpoint_auth_method = r.token_endpoint_auth_method;
}

unfoldable pub apply_metadata : ClientMetadata → ℤ → DynamicClientRecord → DynamicClientRecord
apply_metadata metadata now r = record r {
  display_name = metadata.display_name;
  owner_discord_user_id = metadata.owner_discord_user_id;
  redirect_uris = metadata.redirect_uris;
  updated_at = now;
}

unfoldable pub disable : ℤ → DynamicClientRecord → DynamicClientRecord
disable now r =
    if status_is_active r.status
    then record r { status = disabled; disabled_at = some now; updated_at = now }
    else r

unfoldable pub enable : ℤ → DynamicClientRecord → DynamicClientRecord
enable now r =
    if status_is_active r.status
    then r
    else record r { status = active; disabled_at = none; updated_at = now }

-- `is_some().then_some(t)`
abbrev pub then_some {ℓ} : {A : Type ℓ} → Bool → A → Option A
then_some true a = some a
then_some false a = none

unfoldable pub rotate_secret :
    String → ℤ → DynamicClientRecord → Result ℤ NoSecret × DynamicClientRecord
rotate_secret new_secret_hash now r =
    if not (is_confidential r.client_type)
    then (err no_secret, r)
    else let valid_until = add_i64 now secret_rotation_overlap_secs in
      let previous = r.current_secret_hash in
      (
        ok valid_until,
        record r {
          current_secret_hash = some new_secret_hash;
          previous_secret_hash = previous;
          previous_secret_valid_until = then_some (is_some previous) valid_until;
          updated_at = now;
        },
      )

module _ ⦃c : Crates⦄ where
  -- The second half of `verify_secret`: the previous hash while its window is open.
  unfoldable pub verify_previous : DynamicClientRecord → String → ℤ → Bool
  verify_previous r presented_hash now =
      if is_some_and r.previous_secret_valid_until (λ until. ltb_ℤ now until)
      then is_some_and r.previous_secret_hash (λ previous. ct_eq_text previous presented_hash)
      else false

  unfoldable pub verify_secret : DynamicClientRecord → String → ℤ → Bool
  unfolding verify_previous is_active
  verify_secret r presented now =
      if not (is_active r)
      then false
      else let presented_hash = sha256_b64url (as_bytes presented) in
        if is_some_and r.current_secret_hash (λ current. ct_eq_text current presented_hash)
        then true
        else verify_previous r presented_hash now

pub data RegistryStoreError : Type 0 where
  registry_store_error : RegistryStoreError

pub data RotateOutcome : Type 0 where
  rotated : DynamicClientRecord → RotateOutcome
  not_found : RotateOutcome
  no_secret : RotateOutcome

-- The trait `DynamicClientRegistry` over a registry's state `R`. Each operation is one atomic step.
pub record DynamicClientRegistry (R : Type 0) : Type 0 where
  pub get : String → R → Result (Option DynamicClientRecord) RegistryStoreError
  pub list : R → Result (List DynamicClientRecord) RegistryStoreError
  pub insert : DynamicClientRecord → R → Result Bool RegistryStoreError × R
  pub update_metadata :
      String → ClientMetadata → ℤ → R → Result (Option DynamicClientRecord) RegistryStoreError × R
  pub set_status :
      String → ClientStatus → ℤ → R → Result (Option DynamicClientRecord) RegistryStoreError × R
  pub rotate_secret : String → String → ℤ → R → Result RotateOutcome RegistryStoreError × R
