-- ===== src/Client/Build.antt =====
-- The registry that `build_registry` of client.rs returns.
use discord_oidc.Prelude.{
  String, len, ◌≤◌, ◌≡◌, ◌≢◌, inl, inr, true, false, Option, some, List, [], ◌∷◌, ◌++◌, Result, ok,
  All, any, ◌==◌, arith, Bool-cases, Option-cases, eq_iff, >>=-eq-ok, Result-cases, ◌>>◌,
}
use discord_oidc.Crates.{Crates}
use discord_oidc.Client.{
  ClientConfig, ClientRegistry, RegistryError, confidential, find_in, validate_client, add_clients,
  check_secret, check_secrets, check_covered, build_registry, read_secrets, malformed,
}
use discord_oidc.Client.Valid.{IsValidClient, validate_client_iff}

-- No client stands twice under one id.
abbrev pub HasDistinctIds : List ClientConfig → Type 0
HasDistinctIds [] = Unit
HasDistinctIds (d ∷ ds) = All (λ e. e.client_id ≢ d.client_id) ds × HasDistinctIds ds

All-concat {ℓ κ} :
    {A : Type ℓ} (P : A → Type κ) (xs : List A) {x : A} → All P xs → P x → All P (xs ++ x ∷ [])
All-concat P [] a p = (p, tt)
All-concat P (y ∷ xs) (q, a) p = (q, All-concat P xs a p)

HasDistinctIds-concat :
    (ds : List ClientConfig) (d : ClientConfig)
    → HasDistinctIds ds
    → any (λ (e : ClientConfig). e.client_id == d.client_id) ds ≡ false
    → HasDistinctIds (ds ++ d ∷ [])
HasDistinctIds-concat [] d h e = (tt, tt)
HasDistinctIds-concat (x ∷ ds) d (a, h) e = (
  All-concat (λ (y : ClientConfig). y.client_id ≢ x.client_id) ds a
      (λ same. ground (arith, eq_iff x.client_id d.client_id)),
  HasDistinctIds-concat ds d h (ground arith),
)

module _ ⦃c : Crates⦄ where
  abbrev pub IsValidList : List ClientConfig → Type 0
  IsValidList ds = All IsValidClient ds × HasDistinctIds ds

  add_clients-IsValidList :
      (clients raw result : List ClientConfig)
      → IsValidList clients
      → add_clients clients raw ≡ ok result
      → IsValidList result
  unfolding add_clients
  add_clients-IsValidList clients [] result v e = ground arith
  add_clients-IsValidList clients (raw ∷ rest) result (v, distinct) e =
      let (d, valid, later) = >>=-eq-ok (validate_client raw) _ e in
      let (same, is_valid) = (validate_client_iff raw d).0 valid in
      elim (Bool-cases (any (λ (x : ClientConfig). x.client_id == d.client_id) clients)) [
        | inl taken ↦ absurd (cc (rw taken at later))
        | inr free ↦
            add_clients-IsValidList (clients ++ d ∷ []) rest result
              (
                All-concat IsValidClient clients v (rw same at is_valid),
                HasDistinctIds-concat clients d distinct free,
              )
              (rw free at later)
      ]

  -- Each secret names a confidential client, and has at least 16 bytes.
  abbrev pub SecretFits : List ClientConfig → String × String → Type 0
  SecretFits ds (id, secret) =
      (d : ClientConfig) × (find_in id ds ≡ some d)
      × (d.client_type ≡ confidential)
      × (16 ≤ len secret)

  check_secret_sound :
      (ds : List ClientConfig) (id secret : String)
      → check_secret (find_in id ds) id secret ≡ ok tt
      → SecretFits ds (id, secret)
  unfolding check_secret
  check_secret_sound ds id secret e = elim (Option-cases (find_in id ds)) [
    | inl missing ↦ ground arith
    | inr (d, found) ↦ (d, found, ground arith, ground arith)
  ]

  check_secrets_sound :
      (ds : List ClientConfig) (secrets : List (String × String))
      → check_secrets ds secrets ≡ ok tt
      → All (SecretFits ds) secrets
  unfolding check_secrets
  check_secrets_sound ds [] e = tt
  check_secrets_sound ds ((id, secret) ∷ rest) e =
      let (u, first, later) = >>=-eq-ok (check_secret (find_in id ds) id secret) _ e in
      (check_secret_sound ds id secret first, check_secrets_sound ds rest later)

  -- A confidential client has a secret.
  abbrev pub IsCovered : List (String × String) → ClientConfig → Type 0
  IsCovered secrets d =
      d.client_type ≡ confidential
      → any (λ (e : String × String). e.0 == d.client_id) secrets ≡ true

  check_covered_sound :
      (secrets : List (String × String)) (ds : List ClientConfig)
      → check_covered secrets ds ≡ ok tt
      → All (IsCovered secrets) ds
  unfolding check_covered
  check_covered_sound secrets [] e = tt
  check_covered_sound secrets (d ∷ ds) e =
      (λ h. ground arith, check_covered_sound secrets ds (ground arith))

  pub record IsValidRegistry (r : ClientRegistry) (secrets : List (String × String)) : Type 0 where
    pub clients_valid : All IsValidClient r.clients
    pub ids_distinct : HasDistinctIds r.clients
    pub secrets_fit : All (SecretFits r.clients) secrets
    pub covered : All (IsCovered secrets) r.clients

  abbrev collected :
      List ClientConfig
      → List (String × String)
      → Result (ClientRegistry × List (String × String)) RegistryError
  collected ds ss = ok (record { clients = ds }, ss)

  finish_valid :
      (ds : List ClientConfig) (ss : List (String × String)) (r : ClientRegistry)
      (secrets : List (String × String))
      → IsValidList ds
      → (check_secrets ds ss >> (check_covered ss ds >> collected ds ss)) ≡ ok (r, secrets)
      → IsValidRegistry r secrets
  finish_valid ds ss r secrets (v, distinct) e =
      let (u, checked, e₁) = >>=-eq-ok (check_secrets ds ss) _ e in
      let (w, covered, e₂) = >>=-eq-ok (check_covered ss ds) _ e₁ in
      let same : ds ≡ r.clients = ground arith in
      let same_secrets : ss ≡ secrets = ground arith in
      rw (← same_secrets) (record {
        clients_valid = rw same at v;
        ids_distinct = rw same at distinct;
        secrets_fit = rw same at (check_secrets_sound ds ss checked);
        covered = rw same at (check_covered_sound ss ds covered);
      })

module _ ⦃c : Crates⦄ (parse_clients : String → Result (List ClientConfig) String)
    (parse_secrets : String → Result (List (String × String)) String) where
  -- A registry that `build_registry` returns holds only valid clients under distinct ids; each
  -- secret has at least 16 bytes and names a confidential client, and each confidential client
  -- has a secret.
  pub build_registry-IsValidRegistry :
      (clients_json : String) (secrets_json : Option String) (r : ClientRegistry)
      (secrets : List (String × String))
      → build_registry parse_clients parse_secrets clients_json secrets_json ≡ ok (r, secrets)
      → IsValidRegistry r secrets
  unfolding build_registry
  build_registry-IsValidRegistry clients_json secrets_json r secrets e =
      elim (Result-cases (malformed parse_clients parse_secrets (parse_clients clients_json))) [
        | inr (x, bad) ↦ absurd (cc (rw bad at e))
        | inl (raw, parsed) ↦ elim (Result-cases (add_clients [] raw)) [
          | inr (x, bad) ↦ ground arith
          | inl (ds, added) ↦
              elim (Result-cases (read_secrets parse_clients parse_secrets secrets_json)) [
                | inr (x, bad) ↦ ground arith
                | inl (ss, read) ↦
                    finish_valid ds ss r secrets (add_clients-IsValidList [] raw ds (tt, tt) added)
                      (ground arith)
              ]
        ]
      ]
