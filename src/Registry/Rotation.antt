-- ===== src/Registry/Rotation.antt =====
-- Which secrets verify, and what a rotation does to them.
use discord_oidc.Prelude.{
  String, ◌≡◌, ◌≢◌, ◌↔◌, ◌⊎◌, true, false, Option, none, some, is_some_and, arith,
}
use discord_oidc.Prelude.Text.{as_bytes}
use discord_oidc.Prelude.Int.{ℤ, pos, ◌+ℤ◌, ◌<ℤ◌, ltb_ℤ, add_i64_exact, IsTime}
use discord_oidc.Crates.{Crates}
use discord_oidc.Crates.Compare.{ct_eq_text, ct_eq_text_iff}
use discord_oidc.Util.{sha256_b64url}
use discord_oidc.Client.{confidential}
use discord_oidc.Registry.{DynamicClientRecord, active, rotate_secret, verify_secret}

module _ ⦃c : Crates⦄ where
  -- The hash under which a presented secret is looked up.
  abbrev pub hash_of : String → String
  hash_of presented = sha256_b64url (as_bytes presented)

  -- The window of the previous secret is open.
  abbrev pub IsOpen : Option ℤ → ℤ → Type 0
  IsOpen none now = ⊥
  IsOpen (some until) now = now <ℤ until

  -- The secret is the current one, or the previous one while its window is open.
  abbrev pub Verifies : DynamicClientRecord → String → ℤ → Type 0
  Verifies r presented now =
      (r.status ≡ active)
      × ((r.current_secret_hash ≡ some (hash_of presented))
          ⊎ (IsOpen r.previous_secret_valid_until now
              × (r.previous_secret_hash ≡ some (hash_of presented))))

  -- The test of an optional hash.
  matches_iff :
      (o : Option String) (h : String) → (is_some_and o (λ x. ct_eq_text x h) ≡ true) ↔ (o ≡ some h)
  matches_iff none h = ground arith
  matches_iff (some x) h = ground (arith, ct_eq_text_iff x h)

  IsOpen-iff :
      (o : Option ℤ) (now : ℤ) → (is_some_and o (λ until. ltb_ℤ now until) ≡ true) ↔ IsOpen o now
  IsOpen-iff none now = ground arith
  IsOpen-iff (some until) now = ground arith

  -- A secret verifies exactly when the client is active and the secret's hash is the current one,
  -- or the previous one before its window closes.
  pub verify_secret_iff :
      (r : DynamicClientRecord) (presented : String) (now : ℤ)
      → (verify_secret r presented now ≡ true) ↔ Verifies r presented now
  unfolding verify_secret
  verify_secret_iff r presented now = ground (
    arith,
    matches_iff r.current_secret_hash (hash_of presented),
    matches_iff r.previous_secret_hash (hash_of presented),
    IsOpen-iff r.previous_secret_valid_until now,
  )

  rotated_open :
      (r : DynamicClientRecord) (h h' : String) (t now : ℤ)
      → IsTime t
      → r.client_type ≡ confidential
      → r.current_secret_hash ≡ some h
      → ((rotate_secret h' t r).1.status ≡ r.status)
        × ((rotate_secret h' t r).1.current_secret_hash ≡ some h')
        × ((rotate_secret h' t r).1.previous_secret_hash ≡ some h)
        × ((rotate_secret h' t r).1.previous_secret_valid_until ≡ some (t +ℤ pos 600))
  unfolding rotate_secret
  rotated_open r h h' t now time conf current =
      ground (arith, add_i64_exact t 600 time (omega arith))

  rotated_type :
      (r : DynamicClientRecord) (h : String) (t : ℤ)
      → (rotate_secret h t r).1.client_type ≡ r.client_type
  unfolding rotate_secret
  rotated_type r h t = ground arith

  -- After a rotation of an active confidential client at time `t`, exactly the new secret verifies,
  -- and until ten minutes later also the one that was current before.
  pub verify-rotate_iff :
      (r : DynamicClientRecord) (h h' presented : String) (t now : ℤ)
      → IsTime t
      → r.status ≡ active
      → r.client_type ≡ confidential
      → r.current_secret_hash ≡ some h
      → (verify_secret (rotate_secret h' t r).1 presented now ≡ true)
        ↔ ((h' ≡ hash_of presented) ⊎ ((now <ℤ (t +ℤ pos 600)) × (h ≡ hash_of presented)))
  verify-rotate_iff r h h' presented t now time on conf current = ground (
    arith,
    rotated_open r h h' t now time conf current,
    verify_secret_iff (rotate_secret h' t r).1 presented now,
  )

  -- After two rotations in a row of an active confidential client only the two new secrets can
  -- verify: a secret that hashes to neither of the new hashes does not verify, at any time.
  pub verify-rotate_twice :
      (r : DynamicClientRecord) (h h₁ h₂ presented : String) (t₁ t₂ now : ℤ)
      → IsTime t₁
      → IsTime t₂
      → r.status ≡ active
      → r.client_type ≡ confidential
      → r.current_secret_hash ≡ some h
      → hash_of presented ≢ h₁
      → hash_of presented ≢ h₂
      → verify_secret (rotate_secret h₂ t₂ (rotate_secret h₁ t₁ r).1).1 presented now ≡ false
  verify-rotate_twice r h h₁ h₂ presented t₁ t₂ now time₁ time₂ on conf current n₁ n₂ = ground (
    arith,
    rotated_open r h h₁ t₁ now time₁ conf current,
    rotated_type r h₁ t₁,
    verify-rotate_iff (rotate_secret h₁ t₁ r).1 h₁ h₂ presented t₂ now time₂,
  )
