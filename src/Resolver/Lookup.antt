-- ===== src/Resolver/Lookup.antt =====
-- Which clients resolve, and whose secrets verify.
use discord_oidc.Prelude.{
  String, ◌≡◌, ◌↔◌, ◌⊎◌, inl, inr, true, Option, none, some, ok, is_some, is_some_and, arith,
  Option-cases, Result-cases,
}
use discord_oidc.Prelude.Int.{ℤ}
use discord_oidc.Crates.{Crates}
use discord_oidc.Crates.Compare.{ct_eq_text, ct_eq_text_iff}
use discord_oidc.Client.{ClientConfig, find}
use discord_oidc.Config.{Config, client_secret}
use discord_oidc.Registry.{
  DynamicClientRecord, DynamicClientRegistry, active, is_dynamic_client_id, to_client_config,
}
use discord_oidc.Registry.Rotation.{Verifies, verify_secret_iff}
use discord_oidc.Resolver.{find_client, verify_client_secret, static_secret_matches}

module _ ⦃c : Crates⦄ {R : Type 0} (cfg : Config) (dynamic : DynamicClientRegistry R) (r : R) where
  -- A client of the static registry, or an active one that the dynamic registry stores under an id
  -- of the dynamic form which the static registry does not use.
  abbrev pub Resolves : String → ClientConfig → Type 0
  Resolves id d =
      (find cfg.clients id ≡ some d)
      ⊎ ((x : DynamicClientRecord) × (find cfg.clients id ≡ none)
          × (is_dynamic_client_id id ≡ true)
          × (dynamic.get id r ≡ ok (some x))
          × (x.status ≡ active)
          × (to_client_config x ≡ d))

  find_client_sound :
      (id : String) (d : ClientConfig) → find_client cfg dynamic r id ≡ ok (some d) → Resolves id d
  unfolding find_client
  find_client_sound id d e = elim (Option-cases (find cfg.clients id)) [
    | inr (x, found) ↦ inl (ground arith)
    | inl absent ↦ elim (Result-cases (dynamic.get id r)) [
      | inr (x, failed) ↦ absurd (ground arith)
      | inl (none, got) ↦ absurd (ground arith)
      | inl (some x, got) ↦ inr (x, absent, ground arith, got, ground arith, ground arith)
    ]
  ]

  find_client_complete :
      (id : String) (d : ClientConfig) → Resolves id d → find_client cfg dynamic r id ≡ ok (some d)
  unfolding find_client
  find_client_complete id d h = ground arith

  -- The resolver finds exactly the static clients and the active dynamic ones; a static client
  -- hides a dynamic one of the same id, and a disabled client is not found.
  pub find_client_iff :
      (id : String) (d : ClientConfig)
      → (find_client cfg dynamic r id ≡ ok (some d)) ↔ Resolves id d
  find_client_iff id d = (find_client_sound id d, find_client_complete id d)

  -- The configured secret of a static client, or a secret that verifies for the stored record.
  abbrev pub Authenticates : String → String → ℤ → Type 0
  Authenticates id presented now =
      ((is_some (find cfg.clients id) ≡ true) × (client_secret cfg id ≡ some presented))
      ⊎ ((x : DynamicClientRecord) × (find cfg.clients id ≡ none)
          × (is_dynamic_client_id id ≡ true)
          × (dynamic.get id r ≡ ok (some x))
          × Verifies x presented now)

  static_matches_iff :
      (o : Option String) (presented : String)
      → (is_some_and o (λ x. ct_eq_text x presented) ≡ true) ↔ (o ≡ some presented)
  static_matches_iff none p = ground arith
  static_matches_iff (some x) p = ground (arith, ct_eq_text_iff x p)

  verify_sound :
      (id presented : String) (now : ℤ)
      → verify_client_secret cfg dynamic r id presented now ≡ ok true
      → Authenticates id presented now
  unfolding verify_client_secret static_secret_matches
  verify_sound id presented now e = elim (Option-cases (find cfg.clients id)) [
    | inr (d, found) ↦
        inl (ground arith, (static_matches_iff (client_secret cfg id) presented).0 (ground arith))
    | inl absent ↦ elim (Result-cases (dynamic.get id r)) [
      | inr (x, failed) ↦ absurd (ground arith)
      | inl (none, got) ↦ absurd (ground arith)
      | inl (some x, got) ↦
          inr (x, absent, ground arith, got, (verify_secret_iff x presented now).0 (ground arith))
    ]
  ]

  verify_complete :
      (id presented : String) (now : ℤ)
      → Authenticates id presented now
      → verify_client_secret cfg dynamic r id presented now ≡ ok true
  unfolding verify_client_secret static_secret_matches
  verify_complete id presented now (inl h) =
      ground (arith, static_matches_iff (client_secret cfg id) presented)
  verify_complete id presented now (inr (x, absent, form, got, v)) =
      let verified = (verify_secret_iff x presented now).1 v in ground arith

  -- A secret is accepted exactly when it is the configured one of a static client, or verifies for
  -- the record that the dynamic registry stores under an id which is not static.
  pub verify_client_secret_iff :
      (id presented : String) (now : ℤ)
      → (verify_client_secret cfg dynamic r id presented now ≡ ok true)
        ↔ Authenticates id presented now
  verify_client_secret_iff id presented now =
      (verify_sound id presented now, verify_complete id presented now)
