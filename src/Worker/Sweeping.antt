-- ===== src/Worker/Sweeping.antt =====
-- crates/discord-oidc-worker/src/durable.rs: what a sweep that is answered leaves.
use discord_oidc.Prelude.{
  ℕ, String, ◌≡◌, ◌↔◌, refl, ap, ◌∙◌, inl, inr, Bool, true, false, Option, none, List, [], ◌∷◌, ok,
  arith, eq_iff, ◌==◌, if◌then◌else◌, Option-cases, Bool-cases, contains, length,
}
use discord_oidc.Prelude.Int.{ℤ, leb_ℤ, ltb_ℤ}
use discord_oidc.Prelude.Dict.Order.{keep_if}
use discord_oidc.Crates.{Crates}
use discord_oidc.Worker.Storage.{Storage, IsStorage, Listed, and_then_ok}
use discord_oidc.Worker.AuthorizationState.{
  Entry, entry_expires_at, partition, delete_expired, keep_sweeping, sweep_entries, sweep,
}
use discord_oidc.Worker.Entries.{keep_sweeping-Same}

-- Under the key stands an entry that has expired.
abbrev Expired : ℤ → List (String × Entry) → String → Type 0
Expired now entries j = (y : Entry) × Listed entries j y × (leb_ℤ (entry_expires_at y) now ≡ true)

partition_sound :
    (now : ℤ) (entries : List (String × Entry)) (j : String)
    → contains (partition now entries).0 j ≡ true
    → Expired now entries j
unfolding partition
partition_sound now [] j e = absurd (ground arith)
partition_sound now ((k, x) ∷ entries) j e = elim (Bool-cases (leb_ℤ (entry_expires_at x) now)) [
  | inl past ↦ elim (Bool-cases (k == j)) [
    | inl same ↦ (x, inl (ground (arith, eq_iff k j), refl), past)
    | inr differ ↦
        let (y, there, late) = partition_sound now entries j (ground arith) in (y, inr there, late)
  ]
  | inr live ↦
      let (y, there, late) = partition_sound now entries j (ground arith) in (y, inr there, late)
]

partition_complete :
    (now : ℤ) (entries : List (String × Entry)) (j : String)
    → Expired now entries j
    → contains (partition now entries).0 j ≡ true
unfolding partition
partition_complete now [] j (y, there, late) = absurd there
partition_complete now ((k, x) ∷ entries) j (y, inl (key, same), late) =
    ground (arith, eq_iff k j, ap (λ z. leb_ℤ (entry_expires_at z) now) same)
partition_complete now ((k, x) ∷ entries) j (y, inr there, late) =
    ground (arith, partition_complete now entries j (y, there, late))

-- What a sweep at a time keeps.
abbrev pub live_entry : ℤ → Entry → Bool
live_entry now y = ltb_ℤ now (entry_expires_at y)

live_iff :
    (now : ℤ) (y : Entry) → (leb_ℤ (entry_expires_at y) now ≡ false) ↔ (live_entry now y ≡ true)
live_iff now y = ground arith

module _ ⦃c : Crates⦄ {S : Type 0} (storage : Storage Entry S) (held : S → String → Option Entry)
    (laws : IsStorage storage held) where
  delete_expired_ok :
      (keys : List String) (j : String) (s : S) (u : Unit {0})
      → (delete_expired storage keys s).0 ≡ ok u
      → held (delete_expired storage keys s).1 j ≡ (if contains keys j then none else held s j)
  unfolding delete_expired
  delete_expired_ok [] j s u e = refl
  delete_expired_ok (k ∷ keys) j s u e =
      let (n, gone, later, state) =
        and_then_ok (storage.delete_multiple (k ∷ keys) s) (λ n t. (ok tt, t)) u e in
      ap (λ t. held t j) state ∙ laws.delete_multiple_ok (k ∷ keys) j s n gone

  kept_lem :
      (now : ℤ) (entries : List (String × Entry)) (j : String) (s : S)
      → storage.list s ≡ ok entries
      → (if contains (partition now entries).0 j then none else held s j)
        ≡ keep_if (live_entry now) (held s j)
  kept_lem now entries j s listed = elim (Bool-cases (contains (partition now entries).0 j)) [
    | inl gone ↦
        let (y, there, late) = partition_sound now entries j gone in
        let here = (laws.list_ok s entries j y listed).0 there in
        rw (gone, here) (ground (arith, live_iff now y))
    | inr stays ↦ elim (Option-cases (held s j)) [
      | inl nothing ↦ rw (stays, nothing) refl
      | inr (y, here) ↦ elim (Bool-cases (leb_ℤ (entry_expires_at y) now)) [
        | inl late ↦
            let gone =
              partition_complete now entries j
                (y, (laws.list_ok s entries j y listed).1 here, late) in
            absurd (ground (arith, gone))
        | inr live ↦ rw (stays, here) (ground (arith, live_iff now y))
      ]
    ]
  ]

  -- A sweep that is answered has removed exactly what had expired.
  pub sweep_held :
      (now : ℤ) (s : S) (n : ℕ) (j : String)
      → (sweep storage now s).0 ≡ ok n
      → held (sweep storage now s).1 j ≡ keep_if (live_entry now) (held s j)
  unfolding sweep sweep_entries
  sweep_held now s n j e =
      let (entries, listed, e₁, state₁) =
        and_then_ok (storage.list s, s)
          (λ entries t. sweep_entries storage (partition now entries) t) n e in
      let keys = (partition now entries).0 in
      let remaining = (partition now entries).1 in
      let (u, gone, e₂, state₂) =
        and_then_ok (delete_expired storage keys s)
          (λ u t. keep_sweeping storage (length keys) remaining t) n e₁ in
      ap (λ t. held t j) (state₁ ∙ state₂)
      ∙ keep_sweeping-Same storage held laws (length keys) remaining
          (delete_expired storage keys s).1 j
      ∙ delete_expired_ok keys j s u gone
      ∙ kept_lem now entries j s listed
