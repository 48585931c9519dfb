-- ===== src/Worker/Listing.antt =====
-- crates/discord-oidc-worker: the list of clients (durable.rs with registry_client.rs).
use Prim.Native.Nat.{Ordering}
use Prim.Native.String.{compare}
use discord_oidc.Prelude.{
  String, ◌≡◌, ◌≢◌, ◌⊎◌, ◌↔◌, refl, sym, ap, ◌∙◌, inl, inr, true, Option, some, List, [], ◌∷◌,
  Result, ok, arith, all, Option-cases, Result-cases, Bool-cases,
}
use discord_oidc.Prelude.Text.{as_bytes, starts_with, strip_prefix}
use discord_oidc.Prelude.Text.Split.{strip_prefix_sound}
use discord_oidc.Prelude.Dict.Order.{compare_flip}
use discord_oidc.Registry.{DynamicClientRecord}
use discord_oidc.Registry.Ids.{strip_prefix-append}
use discord_oidc.Registry.Contract.{IsIn, Front, IsSorted}
use discord_oidc.Worker.Storage.{WorkerError, Storage, IsStorage, Listed, IsStub, and_then_ok}
use discord_oidc.Worker.ClientRegistryState.{
  client_key, Message, no_body, Response, records, json_ok, client_records, insert_sorted,
  sort_by_id, list, on_rest, fetch,
}
use discord_oidc.Worker.RegistryClient.{carried, read_records, on_ok, send, registry_client}
use discord_oidc.Worker.Paths.{is_path_byte}
use discord_oidc.Worker.RegistryMessages.{message, handled_ok}

insert_sorted-IsIn :
    (z x : DynamicClientRecord) (ys : List DynamicClientRecord)
    → IsIn z (insert_sorted x ys) ↔ ((x ≡ z) ⊎ IsIn z ys)
unfolding insert_sorted
insert_sorted-IsIn z x [] = (λ h. h, λ h. h)
insert_sorted-IsIn z x (y ∷ ys) = ground (arith, insert_sorted-IsIn z x ys)

sort_by_id-IsIn :
    (z : DynamicClientRecord) (xs : List DynamicClientRecord) → IsIn z (sort_by_id xs) ↔ IsIn z xs
unfolding sort_by_id
sort_by_id-IsIn z [] = (λ h. h, λ h. h)
sort_by_id-IsIn z (x ∷ xs) =
    ground (arith, sort_by_id-IsIn z xs, insert_sorted-IsIn z x (sort_by_id xs))

insert_sorted-Front :
    (w x : DynamicClientRecord) (ys : List DynamicClientRecord)
    → Front w ys
    → compare w.client_id x.client_id ≢ Ordering.gt
    → Front w (insert_sorted x ys)
unfolding insert_sorted
insert_sorted-Front w x [] h k = k
insert_sorted-Front w x (y ∷ ys) h k = ground arith

insert_sorted-IsSorted :
    (x : DynamicClientRecord) (ys : List DynamicClientRecord)
    → IsSorted ys
    → IsSorted (insert_sorted x ys)
unfolding insert_sorted
insert_sorted-IsSorted x [] h = (tt, tt)
insert_sorted-IsSorted x (y ∷ ys) (front, h) = ground (
  arith,
  insert_sorted-IsSorted x ys h,
  insert_sorted-Front y x ys front,
  compare_flip x.client_id y.client_id,
)

sort_by_id-IsSorted : (xs : List DynamicClientRecord) → IsSorted (sort_by_id xs)
unfolding sort_by_id
sort_by_id-IsSorted [] = tt
sort_by_id-IsSorted (x ∷ xs) = insert_sorted-IsSorted x (sort_by_id xs) (sort_by_id-IsSorted xs)

-- A record that is listed is that of an entry with a client's key.
abbrev Filed : List (String × DynamicClientRecord) → DynamicClientRecord → Type 0
Filed entries x = (key : String) × Listed entries key x × (starts_with "client:" key ≡ true)

client_records_sound :
    (entries : List (String × DynamicClientRecord)) (x : DynamicClientRecord)
    → IsIn x (client_records entries)
    → Filed entries x
unfolding client_records
client_records_sound [] x h = absurd h
client_records_sound ((k, y) ∷ entries) x h = elim (Bool-cases (starts_with "client:" k)) [
  | inr other ↦
      let (key, there, named) = client_records_sound entries x (rw (other, client_records) at h) in
      (key, inr there, named)
  | inl named ↦ elim (rw (named, client_records) at h) [
    | inl same ↦ (k, inl (refl, same), named)
    | inr later ↦
        let (key, there, named') = client_records_sound entries x later in (key, inr there, named')
  ]
]

client_records_complete :
    (entries : List (String × DynamicClientRecord)) (x : DynamicClientRecord)
    → Filed entries x
    → IsIn x (client_records entries)
unfolding client_records
client_records_complete [] x (key, there, named) = absurd there
client_records_complete ((k, y) ∷ entries) x (key, inl (same, is_x), named) =
    ground (arith, ap (starts_with "client:") same)
client_records_complete ((k, y) ∷ entries) x (key, inr there, named) =
    ground (arith, client_records_complete entries x (key, there, named))

client_key_starts : (id : String) → starts_with "client:" (client_key id) ≡ true
unfolding client_key starts_with
client_key_starts id = rw (strip_prefix-append "client:" id) refl

key_of_start :
    (key : String) → starts_with "client:" key ≡ true → (id : String) × (key ≡ client_key id)
unfolding client_key starts_with
key_of_start key e = elim (Option-cases (strip_prefix "client:" key)) [
  | inl nothing ↦ absurd (ground arith)
  | inr (id, stripped) ↦ (id, strip_prefix_sound "client:" key id stripped)
]

module _ {S : Type 0} (storage : Storage DynamicClientRecord S)
    (held : S → String → Option DynamicClientRecord) (laws : IsStorage storage held)
    (stub : Message → S → Result Response WorkerError × S) (stub_laws : IsStub (fetch storage) stub)
    (path_of : String → String)
    (plain : (p : String) → all is_path_byte (as_bytes p) ≡ true → path_of p ≡ p) where
  list_fetch :
      (s : S) → fetch storage (message "GET" (path_of "/clients") no_body) s ≡ list storage s
  unfolding fetch on_rest as_bytes strip_prefix
  list_fetch s = rw (plain "/clients" refl) refl

  -- What is listed is the sorted list of what the storage has under clients' keys.
  listed_answer :
      (s : S) (xs : List DynamicClientRecord)
      → (registry_client path_of (some stub)).list s ≡ ok xs
      → (entries : List (String × DynamicClientRecord)) × (storage.list s ≡ ok entries)
        × (xs ≡ sort_by_id (client_records entries))
  unfolding registry_client send on_ok read_records list
  listed_answer s xs e =
      let m = message "GET" (path_of "/clients") no_body in
      elim (Result-cases (carried (stub m s).0)) [
        | inr (x, bad) ↦ absurd (ground arith)
        | inl (r, good) ↦
            let (answered, state) =
              handled_ok storage held laws stub stub_laws path_of plain m s (list storage s) r
                (list_fetch s) good in
            let (entries, listed, given, state') =
              and_then_ok (storage.list s, s)
                (λ entries t. (ok (json_ok (records (sort_by_id (client_records entries)))), t)) r
                answered in
            (entries, listed, ground (arith, good, given))
      ]

  pub list_answer :
      (s : S) (xs : List DynamicClientRecord) (x : DynamicClientRecord)
      → (registry_client path_of (some stub)).list s ≡ ok xs
      → IsIn x xs ↔ ((id : String) × (held s (client_key id) ≡ some x))
  list_answer s xs x e =
      let (entries, listed, same) = listed_answer s xs e in
      (
        λ there.
            let (key, filed, named) =
              client_records_sound entries x
                ((sort_by_id-IsIn x (client_records entries)).0 (rw same at there)) in
            let (id, is_key) = key_of_start key named in
            (id, ap (held s) (sym is_key) ∙ (laws.list_ok s entries key x listed).0 filed),
        λ (id, here). rw same (
            (sort_by_id-IsIn x (client_records entries)).1 (
              client_records_complete entries x (
                client_key id,
                (laws.list_ok s entries (client_key id) x listed).1 here,
                client_key_starts id,
              ))),
      )

  pub list_answer-IsSorted :
      (s : S) (xs : List DynamicClientRecord)
      → (registry_client path_of (some stub)).list s ≡ ok xs
      → IsSorted xs
  list_answer-IsSorted s xs e =
      let (entries, listed, same) = listed_answer s xs e in
      rw same (sort_by_id-IsSorted (client_records entries))
