-- ===== src/Worker/Records.antt =====
-- crates/discord-oidc-worker/src/durable.rs: how the operations of the registry's object
-- change what is held under its keys.
use discord_oidc.Prelude.{
  String, ◌≡◌, ◌≢◌, ◌⊎◌, refl, sym, subst, ◌∙◌, inl, inr, Bool, true, false, Option, none, some,
  Result, ok, err, arith, eq_iff, eq_refl, ◌==◌, if◌then◌else◌, Bool-cases,
}
use discord_oidc.Prelude.Int.{ℤ}
use discord_oidc.Registry
use discord_oidc.Registry.{DynamicClientRecord, NoSecret}
use discord_oidc.Registry.Memory.Effect.{on_id}
use discord_oidc.Worker.Storage.{Storage, IsStorage}
use discord_oidc.Worker.ClientRegistryState.{
  Response, inserted, RotateSecretReply, rotated, not_found, no_secret,
}

-- `Option::map`
abbrev pub mapped :
    (DynamicClientRecord → DynamicClientRecord)
    → Option DynamicClientRecord
    → Option DynamicClientRecord
mapped f none = none
mapped f (some x) = some (f x)

-- What an insertion under a key does to what is held under another.
abbrev pub put_at :
    String → DynamicClientRecord → String → Option DynamicClientRecord → Option DynamicClientRecord
put_at key x j none = if key == j then some x else none
put_at key x j (some y) = some y

-- How an insertion answers.
abbrev pub insert_response : Bool → Response
insert_response true = record { status = 201; reply = inserted true }
insert_response false = record { status = 409; reply = inserted false }

-- The record after a rotation, and what a rotation answers.
abbrev pub after_rotation : String → ℤ → DynamicClientRecord → DynamicClientRecord
after_rotation h now x = (Registry.rotate_secret h now x).1

abbrev pub settled : Result ℤ NoSecret × DynamicClientRecord → RotateSecretReply
settled (ok until, y) = rotated y
settled (err e, y) = no_secret

abbrev pub rotation_reply : String → ℤ → Option DynamicClientRecord → RotateSecretReply
rotation_reply h now none = not_found
rotation_reply h now (some x) = settled (Registry.rotate_secret h now x)

module _ {S : Type 0} (storage : Storage DynamicClientRecord S)
    (held : S → String → Option DynamicClientRecord) (laws : IsStorage storage held) where
  -- Under each key stands what the change makes of what stood there; or that may not have happened.
  abbrev pub Applied :
      (String → Option DynamicClientRecord → Option DynamicClientRecord) → S → S → Type 0
  Applied g s t = (j : String) → held t j ≡ g j (held s j)

  abbrev pub Became :
      (String → Option DynamicClientRecord → Option DynamicClientRecord) → S → S → Type 0
  Became g s t = (j : String) → (held t j ≡ held s j) ⊎ (held t j ≡ g j (held s j))

  -- A change that concerns one key only, and makes a value there.
  pub record Makes (g : String → Option DynamicClientRecord → Option DynamicClientRecord)
      (key : String) (x : DynamicClientRecord) (s : S) : Type 0 where
    own : g key (held s key) ≡ some x
    others : (j : String) → key ≢ j → g j (held s j) ≡ held s j

  pub put-Became :
      (g : String → Option DynamicClientRecord → Option DynamicClientRecord) (key : String)
      (x : DynamicClientRecord) (s : S)
      → Makes g key x s
      → Became g s (storage.put key x s).1
  put-Became g key x s m j = elim (Bool-cases (key == j)) [
    | inr differ ↦ inl (laws.put_frame key j x s (λ e. ground (arith, eq_iff key j)))
    | inl same ↦
        subst
          (λ k.
            (held (storage.put key x s).1 k ≡ held s k)
            ⊎ (held (storage.put key x s).1 k ≡ g k (held s k)))
          ((eq_iff key j).0 same)
          (elim (laws.put_either key x s) [
            | inl before ↦ inl before
            | inr written ↦ inr (written ∙ sym m.own)
          ])
  ]

  pub put-Applied :
      (g : String → Option DynamicClientRecord → Option DynamicClientRecord) (key : String)
      (x : DynamicClientRecord) (s : S) (u : Unit {0})
      → Makes g key x s
      → (storage.put key x s).0 ≡ ok u
      → Applied g s (storage.put key x s).1
  put-Applied g key x s u m e j = elim (Bool-cases (key == j)) [
    | inr differ ↦
        let n : key ≢ j = λ e. ground (arith, eq_iff key j) in
        laws.put_frame key j x s n ∙ sym (m.others j n)
    | inl same ↦
        subst (λ k. held (storage.put key x s).1 k ≡ g k (held s k)) ((eq_iff key j).0 same)
          (laws.put_ok key key x s u e ∙ rw (eq_refl key) (sym m.own))
  ]

  pub on_id-Makes :
      (key : String) (f : DynamicClientRecord → DynamicClientRecord) (x : DynamicClientRecord)
      (s : S)
      → held s key ≡ some x
      → Makes (λ j o. on_id key j f o) key (f x) s
  on_id-Makes key f x s here = record {
    own = rw here (ground (arith, eq_refl key));
    others = λ j n. ground (arith, eq_iff key j);
  }

  pub put_at-Makes :
      (key : String) (x : DynamicClientRecord) (s : S)
      → held s key ≡ none
      → Makes (put_at key x) key x s
  put_at-Makes key x s free = record {
    own = rw free (ground (arith, eq_refl key));
    others = λ j n. ground (arith, eq_iff key j);
  }

  pub on_id_absent :
      (key : String) (f : DynamicClientRecord → DynamicClientRecord) (s : S)
      → held s key ≡ none
      → Applied (λ j o. on_id key j f o) s s
  on_id_absent key f s absent j = elim (Bool-cases (key == j)) [
    | inl same ↦
        subst (λ k. held s k ≡ on_id key k f (held s k)) ((eq_iff key j).0 same) (rw absent refl)
    | inr differ ↦ ground arith
  ]
