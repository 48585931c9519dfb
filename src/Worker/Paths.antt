-- ===== src/Worker/Paths.antt =====
-- crates/discord-oidc-worker: the paths of registry_client.rs, as the object of durable.rs reads them
-- for ids of the dynamic form.
use Prim.Native.String
use text.Mathlib.TextLemmas.{nil-append, cons-append, append-nil, append_assoc}
use discord_oidc.Prelude.{
  ℕ, String, ◌≡◌, refl, ap, subst, ◌∙◌, inl, inr, Bool, true, false, ◌||◌, some, List, [], ◌∷◌,
  ◌++◌, all, eqb, arith, Option-cases,
}
use discord_oidc.Prelude.Text.{
  as_bytes, as_bytes-append, is_ascii_alphanumeric, contains_char, is_empty_text, is_slash, split,
  starts_with, strip_prefix, trim_start_matches,
}
use discord_oidc.Prelude.Text.Split.{
  split-whole, split-append, strip_prefix_sound, all-append, contains_char_absent,
}
use discord_oidc.Registry.{is_dynamic_client_id}
use discord_oidc.Registry.Ids.{strip_prefix-append}
use discord_oidc.Worker.Storage.{Storage}
use discord_oidc.Registry.{DynamicClientRecord}
use discord_oidc.Worker.ClientRegistryState.{
  Message, Body, fetch, on_rest, on_segments, on_record, on_action,
}
use discord_oidc.Worker.RegistryClient.{record_path, action_path}

abbrev pub is_id_byte : ℕ → Bool
is_id_byte b = is_ascii_alphanumeric b || eqb b b'-' || eqb b b'_'

-- The bytes that a URL's path keeps as they are.
abbrev pub is_path_byte : ℕ → Bool
is_path_byte b = is_id_byte b || eqb b b'/'

id_parts :
    (id : String)
    → is_dynamic_client_id id ≡ true
    → (rest : String) × (id ≡ String.◌++◌ "oji_" rest) × (all is_id_byte (as_bytes rest) ≡ true)
unfolding is_dynamic_client_id
id_parts id e = elim (Option-cases (strip_prefix "oji_" id)) [
  | inl absent ↦ absurd (ground arith)
  | inr (rest, found) ↦ (rest, strip_prefix_sound "oji_" id rest found, ground arith)
]

prefix_bytes : all is_id_byte (as_bytes "oji_") ≡ true
unfolding as_bytes
prefix_bytes = refl

id_bytes : (id : String) → is_dynamic_client_id id ≡ true → all is_id_byte (as_bytes id) ≡ true
id_bytes id e =
    let (rest, same, bytes) = id_parts id e in
    rw (same, as_bytes-append "oji_" rest)
      (all-append is_id_byte (as_bytes "oji_") (as_bytes rest) prefix_bytes bytes)

id_no_slash : (id : String) → is_dynamic_client_id id ≡ true → contains_char b'/' id ≡ false
id_no_slash id e = contains_char_absent is_id_byte b'/' id (omega arith) refl (id_bytes id e)

trim_id :
    (id t : String)
    → is_dynamic_client_id id ≡ true
    → trim_start_matches is_slash (String.◌++◌ "/" (String.◌++◌ id t)) ≡ String.◌++◌ id t
unfolding trim_start_matches
trim_id id t e =
    let (rest, same, bytes) = id_parts id e in
    rw
      (
        same,
        cons-append "/" "" (String.◌++◌ (String.◌++◌ "oji_" rest) t),
        nil-append (String.◌++◌ (String.◌++◌ "oji_" rest) t),
        cons-append "o" "ji_" rest,
        cons-append "o" (String.◌++◌ "ji_" rest) t,
      )
      refl

path_of_id : (xs : List ℕ) → all is_id_byte xs ≡ true → all is_path_byte xs ≡ true
path_of_id [] e = refl
path_of_id (x ∷ xs) e = ground (arith, path_of_id xs)

clients_bytes : all is_path_byte (as_bytes "/clients/") ≡ true
unfolding as_bytes
clients_bytes = refl

-- The paths of the operations on one client consist of bytes that a URL keeps.
pub record_path_bytes :
    (id : String)
    → is_dynamic_client_id id ≡ true
    → all is_path_byte (as_bytes (record_path id)) ≡ true
unfolding record_path
record_path_bytes id e = rw (as_bytes-append "/clients/" id) (
    all-append is_path_byte (as_bytes "/clients/") (as_bytes id) clients_bytes
      (path_of_id (as_bytes id) (id_bytes id e)))

pub action_path_bytes :
    (id action : String)
    → is_dynamic_client_id id ≡ true
    → all is_path_byte (as_bytes (String.◌++◌ "/" action)) ≡ true
    → all is_path_byte (as_bytes (action_path id action)) ≡ true
unfolding action_path
action_path_bytes id action e plain =
    rw
      (
        as_bytes-append "/clients/" (String.◌++◌ id (String.◌++◌ "/" action)),
        as_bytes-append id (String.◌++◌ "/" action),
      )
      (all-append is_path_byte (as_bytes "/clients/")
        (as_bytes id ++ as_bytes (String.◌++◌ "/" action)) clients_bytes
        (all-append is_path_byte (as_bytes id) (as_bytes (String.◌++◌ "/" action))
          (path_of_id (as_bytes id) (id_bytes id e)) plain))

clients_slash :
    (t : String) → strip_prefix "/clients" (String.◌++◌ "/clients/" t) ≡ some (String.◌++◌ "/" t)
clients_slash t =
    ap (strip_prefix "/clients") (append_assoc "/clients" "/" t)
    ∙ strip_prefix-append "/clients" (String.◌++◌ "/" t)

slash_front :
    (t : String)
    → (is_empty_text (String.◌++◌ "/" t) ≡ false) × (starts_with "/" (String.◌++◌ "/" t) ≡ true)
unfolding starts_with
slash_front t = (rw (cons-append "/" "" t) refl, rw (strip_prefix-append "/" t) refl)

module _ {S : Type 0} (storage : Storage DynamicClientRecord S) where
  on_rest_slash :
      (m : Message) (t : String) (s : S)
      → on_rest storage m (some (String.◌++◌ "/" t)) s
        ≡ on_segments storage m (split b'/' (trim_start_matches is_slash (String.◌++◌ "/" t))) s
  unfolding on_rest
  on_rest_slash m t s = rw ((slash_front t).0, (slash_front t).1) refl

  -- A path with an id of the dynamic form reaches the record of that id, and no other.
  pub fetch_record :
      (method id : String) (body : Body) (s : S)
      → is_dynamic_client_id id ≡ true
      → let m : Message = record { method = method; path = record_path id; body = body } in
        fetch storage m s ≡ on_record storage m id s
  unfolding fetch record_path on_segments
  fetch_record method id body s e =
      let m : Message = record { method = method; path = record_path id; body = body } in
      let trimmed : trim_start_matches is_slash (String.◌++◌ "/" id) ≡ id =
        subst (λ u. trim_start_matches is_slash (String.◌++◌ "/" u) ≡ u) (append-nil id)
          (trim_id id "" e) in
      rw (clients_slash id)
        (on_rest_slash m id s ∙ rw (trimmed, split-whole b'/' id (id_no_slash id e)) refl)

  -- A path with an action behind such an id reaches that action on that id.
  pub fetch_action :
      (method id action : String) (body : Body) (s : S)
      → is_dynamic_client_id id ≡ true
      → contains_char b'/' action ≡ false
      → let m : Message = record { method = method; path = action_path id action; body = body } in
        fetch storage m s ≡ on_action storage m id action s
  unfolding fetch action_path on_segments
  fetch_action method id action body s e plain =
      let m : Message = record { method = method; path = action_path id action; body = body } in
      let tail = String.◌++◌ id (String.◌++◌ "/" action) in
      let front : String.◌++◌ "/" action ≡ String.◌∷◌ "/" action =
        cons-append "/" "" action ∙ ap (String.◌∷◌ "/") (nil-append action) in
      let parts : split b'/' tail ≡ id ∷ action ∷ [] =
        ap (λ t. split b'/' (String.◌++◌ id t)) front
        ∙ split-append b'/' id action "/" (id_no_slash id e) refl
        ∙ ap (λ ps. id ∷ ps) (split-whole b'/' action plain) in
      rw (clients_slash tail) (
        on_rest_slash m tail s
        ∙ ap (λ t. on_segments storage m (split b'/' t) s) (trim_id id (String.◌++◌ "/" action) e)
        ∙ rw parts refl)
