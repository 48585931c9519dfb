-- ===== src/Worker/Entries.antt =====
-- crates/discord-oidc-worker/src/durable.rs: what the operations of the object do to its entries.
use discord_oidc.Prelude.{
  ℕ, String, ◌≡◌, ◌≢◌, ◌⊎◌, refl, sym, ap, ◌∙◌, inl, inr, Option, none, some, List, Result, ok, err,
  arith, eq_iff, ◌==◌, if◌then◌else◌, Result-cases, Bool-cases, is_empty, ltb, length,
}
use discord_oidc.Prelude.Int.{ℤ}
use discord_oidc.Crates.{Crates}
use discord_oidc.Transaction.{AuthorizationTransaction}
use discord_oidc.Code.{StoredAuthorizationCode, ExchangeCheck, ConsumeDeny, evaluate_code_exchange}
use discord_oidc.Code
use discord_oidc.Worker.Storage.{
  WorkerError, Storage, IsStorage, and_then, and_then_state, and_then_ok,
}
use discord_oidc.Worker.AuthorizationState.{
  sweep_interval, tx_key, code_key, Entry, as_tx, as_code, Response, json_ok, done, took, consumed,
  denied, exchanged, ensure_alarm, put_entry, take_found, take_transaction, taken_reply, settle,
  consume_found, consume_code, delete_expired, partition, keep_sweeping, sweep_entries, sweep,
}

some-injective : (x y : Entry) → some x ≡ some y → x ≡ y
some-injective x y e = ground arith

module _ ⦃c : Crates⦄ {S : Type 0} (storage : Storage Entry S) (held : S → String → Option Entry)
    (laws : IsStorage storage held) where
  -- Only one key is written, with one value; only one key is removed; keys are removed.
  pub record Wrote (key : String) (x : Entry) (s t : S) : Type 0 where
    pub others : (j : String) → key ≢ j → held t j ≡ held s j
    pub own : (y : Entry) → held t key ≡ some y → (held s key ≡ some y) ⊎ (x ≡ y)

  pub record Dropped (key : String) (s t : S) : Type 0 where
    pub others : (j : String) → key ≢ j → held t j ≡ held s j
    pub own : (y : Entry) → held t key ≡ some y → held s key ≡ some y

  abbrev pub Shrunk : S → S → Type 0
  Shrunk s t = (j : String) (y : Entry) → held t j ≡ some y → held s j ≡ some y

  abbrev pub Same : S → S → Type 0
  Same s t = (j : String) → held t j ≡ held s j

  pub Wrote-some :
      (key j : String) (x y : Entry) (s t : S)
      → Wrote key x s t
      → held t j ≡ some y
      → (held s j ≡ some y) ⊎ ((key ≡ j) × (x ≡ y))
  Wrote-some key j x y s t w e = elim (Bool-cases (key == j)) [
    | inr differ ↦ inl (sym (w.others j (λ same. ground (arith, eq_iff key j))) ∙ e)
    | inl same ↦
        let is_key : key ≡ j = ground (arith, eq_iff key j) in
        elim (w.own y (ap (held t) is_key ∙ e)) [
          | inl before ↦ inl (ap (held s) (sym is_key) ∙ before)
          | inr written ↦ inr (is_key, written)
        ]
  ]

  pub Dropped-some :
      (key j : String) (y : Entry) (s t : S)
      → Dropped key s t
      → held t j ≡ some y
      → held s j ≡ some y
  Dropped-some key j y s t w e = elim (Bool-cases (key == j)) [
    | inr differ ↦ sym (w.others j (λ same. ground (arith, eq_iff key j))) ∙ e
    | inl same ↦
        let is_key : key ≡ j = ground (arith, eq_iff key j) in
        ap (held s) (sym is_key) ∙ w.own y (ap (held t) is_key ∙ e)
  ]

  ensure_alarm-Same : (s : S) → Same s (ensure_alarm storage s).1
  unfolding ensure_alarm
  ensure_alarm-Same s = elim (Result-cases (storage.get_alarm s)) [
    | inr (e, bad) ↦ rw (bad, ensure_alarm) (λ j. refl)
    | inl (none, good) ↦ rw (good, ensure_alarm) (λ j. laws.set_alarm_held sweep_interval j s)
    | inl (some at, good) ↦ rw (good, ensure_alarm) (λ j. refl)
  ]

  Wrote-Same : (key : String) (x : Entry) (s t u : S) → Wrote key x s t → Same t u → Wrote key x s u
  Wrote-Same key x s t u w h = record {
    others = λ j n. h j ∙ w.others j n;
    own = λ y e. w.own y (sym (h key) ∙ e);
  }

  storage_put-Wrote : (key : String) (x : Entry) (s : S) → Wrote key x s (storage.put key x s).1
  storage_put-Wrote key x s = record {
    others = λ j n. laws.put_frame key j x s n;
    own = λ y e. elim (laws.put_either key x s) [
      | inl before ↦ inl (sym before ∙ e)
      | inr written ↦ inr (some-injective x y (sym written ∙ e))
    ];
  }

  finished : S → Result Response WorkerError × S
  finished t = and_then (ensure_alarm storage t) (λ v t'. (ok (json_ok done), t'))

  finished-Same : (t : S) → Same t (finished t).1
  unfolding finished
  finished-Same t =
      and_then_state (Same t) (ensure_alarm storage t) (λ v t'. (ok (json_ok done), t'))
        (ensure_alarm-Same t) (λ v h. h)

  pub put_entry-Wrote :
      (key : String) (x : Entry) (s : S) → Wrote key x s (put_entry storage key x s).1
  unfolding put_entry finished
  put_entry-Wrote key x s =
      and_then_state (Wrote key x s) (storage.put key x s) (λ u t. finished t)
        (storage_put-Wrote key x s)
        (λ u w.
          Wrote-Same key x s (storage.put key x s).1 (finished (storage.put key x s).1).1 w
            (finished-Same (storage.put key x s).1))

  pub put_entry_ok :
      (key j : String) (x : Entry) (s : S) (r : Response)
      → (put_entry storage key x s).0 ≡ ok r
      → held (put_entry storage key x s).1 j ≡ (if key == j then some x else held s j)
  unfolding put_entry finished
  put_entry_ok key j x s r e =
      let (u, put, later, state) = and_then_ok (storage.put key x s) (λ u t. finished t) r e in
      ap (λ t. held t j) state
      ∙ finished-Same (storage.put key x s).1 j
      ∙ laws.put_ok key j x s u put

  Dropped-refl : (key : String) (s : S) → Dropped key s s
  Dropped-refl key s = record { others = λ j n. refl; own = λ y e. e }

  delete-Dropped : (key : String) (s : S) → Dropped key s (storage.delete key s).1
  delete-Dropped key s = record {
    others = λ j n. laws.delete_frame key j s n;
    own = λ y e. laws.delete_only key key y s e;
  }

  take_found-Dropped :
      (key : String) (now : ℤ) (o : Option AuthorizationTransaction) (s : S)
      → Dropped key s (take_found storage key now o s).1
  unfolding take_found
  take_found-Dropped key now none s = Dropped-refl key s
  take_found-Dropped key now (some tx) s =
      and_then_state (Dropped key s) (storage.delete key s)
        (λ b t. (ok (taken_reply storage tx now), t)) (delete-Dropped key s) (λ b h. h)

  pub take-Dropped :
      (state : String) (now : ℤ) (s : S)
      → Dropped (tx_key state) s (take_transaction storage state now s).1
  unfolding take_transaction
  take-Dropped state now s = elim (Result-cases (as_tx (storage.get (tx_key state) s))) [
    | inr (e, bad) ↦ rw (bad, take_transaction) (Dropped-refl (tx_key state) s)
    | inl (o, good) ↦
        rw (good, take_transaction)
          (and_then_state (Dropped (tx_key state) s) (take_found storage (tx_key state) now o s)
            (λ reply t'. (ok (json_ok (took reply)), t'))
            (take_found-Dropped (tx_key state) now o s) (λ reply h. h))
  ]

  settle-Dropped :
      (key : String) (x : StoredAuthorizationCode) (v : Result (Unit {0}) ConsumeDeny) (s : S)
      → Dropped key s (settle storage key x v s).1
  unfolding settle
  settle-Dropped key x (ok u) s =
      and_then_state (Dropped key s) (storage.delete key s) (λ b t. (ok (consumed x), t))
        (delete-Dropped key s) (λ b h. h)
  settle-Dropped key x (err Code.expired) s =
      and_then_state (Dropped key s) (storage.delete key s) (λ b t. (ok (denied Code.expired), t))
        (delete-Dropped key s) (λ b h. h)
  settle-Dropped key x (err d) s = Dropped-refl key s

  consume_found-Dropped :
      (key : String) (check : ExchangeCheck) (now : ℤ) (o : Option StoredAuthorizationCode) (s : S)
      → Dropped key s (consume_found storage key check now o s).1
  unfolding consume_found
  consume_found-Dropped key check now none s = Dropped-refl key s
  consume_found-Dropped key check now (some x) s =
      settle-Dropped key x (evaluate_code_exchange x check now) s

  pub consume-Dropped :
      (h : String) (check : ExchangeCheck) (now : ℤ) (s : S)
      → Dropped (code_key h) s (consume_code storage h check now s).1
  unfolding consume_code
  consume-Dropped h check now s = elim (Result-cases (as_code (storage.get (code_key h) s))) [
    | inr (e, bad) ↦ rw (bad, consume_code) (Dropped-refl (code_key h) s)
    | inl (o, good) ↦
        rw (good, consume_code)
          (and_then_state (Dropped (code_key h) s)
            (consume_found storage (code_key h) check now o s)
            (λ reply t'. (ok (json_ok (exchanged reply)), t'))
            (consume_found-Dropped (code_key h) check now o s) (λ reply h. h))
  ]

  delete_expired-Shrunk : (keys : List String) (s : S) → Shrunk s (delete_expired storage keys s).1
  unfolding delete_expired
  delete_expired-Shrunk keys s = elim (Bool-cases (is_empty keys)) [
    | inl nothing ↦ rw (nothing, delete_expired) (λ j y e. e)
    | inr some_key ↦
        rw (some_key, delete_expired)
          (and_then_state (Shrunk s) (storage.delete_multiple keys s) (λ n t. (ok tt, t))
            (λ j y e. laws.delete_multiple_only keys j y s e) (λ n h. h))
  ]

  pub keep_sweeping-Same :
      (count remaining : ℕ) (s : S) → Same s (keep_sweeping storage count remaining s).1
  unfolding keep_sweeping
  keep_sweeping-Same count remaining s = elim (Bool-cases (ltb 0 remaining)) [
    | inr nothing ↦ rw (nothing, keep_sweeping) (λ j. refl)
    | inl left ↦
        rw (left, keep_sweeping)
          (and_then_state (Same s) (storage.set_alarm sweep_interval s) (λ u t. (ok count, t))
            (λ j. laws.set_alarm_held sweep_interval j s) (λ u h. h))
  ]

  sweep_entries-Shrunk : (p : List String × ℕ) (s : S) → Shrunk s (sweep_entries storage p s).1
  unfolding sweep_entries
  sweep_entries-Shrunk (keys, remaining) s =
      let t = (delete_expired storage keys s).1 in
      and_then_state (Shrunk s) (delete_expired storage keys s)
        (λ u t. keep_sweeping storage (length keys) remaining t) (delete_expired-Shrunk keys s)
        (λ u h j y e. h j y (sym (keep_sweeping-Same (length keys) remaining t j) ∙ e))

  pub sweep-Shrunk : (now : ℤ) (s : S) → Shrunk s (sweep storage now s).1
  unfolding sweep
  sweep-Shrunk now s =
      and_then_state (Shrunk s) (storage.list s, s)
        (λ entries t. sweep_entries storage (partition now entries) t) (λ j y e. e)
        (λ entries h. sweep_entries-Shrunk (partition now entries) s)
