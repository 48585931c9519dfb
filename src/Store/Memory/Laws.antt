-- ===== src/Store/Memory/Laws.antt =====
-- The in-memory store (store.rs) against the contract of the trait.
use discord_oidc.Prelude.{
  String, ◌≡◌, ◌≢◌, refl, ap, ◌∙◌, inl, inr, Option, none, some, Result, ok, err, not, ◌==◌,
  if◌then◌else◌, eq_iff, eq_refl, arith, Option-cases, Result-cases,
}
use discord_oidc.Prelude.Int.{ℤ, ltb_ℤ}
use discord_oidc.Prelude.Dict
use discord_oidc.Prelude.Dict.Order.{
  IsOrdered, insert-IsOrdered, remove-IsOrdered, retain-IsOrdered, get-retain, keep_if,
}
use discord_oidc.Prelude.Dict.{get-insert, get-remove}
use discord_oidc.Crates.{Crates}
use discord_oidc.Transaction.{AuthorizationTransaction, is_expired}
use discord_oidc.Code
use discord_oidc.Code.{
  StoredAuthorizationCode, ExchangeCheck, ConsumeDeny, unknown, evaluate_code_exchange,
}
use discord_oidc.Code.Exchange.{
  IsBound, evaluate_code_exchange_ok_iff, evaluate_code_exchange_err_iff,
}
use discord_oidc.Store.{TakeTransaction}
use discord_oidc.Store.Contract.{
  View, IsStore, KeepsWellFormed, Took, Replied, live_tx, live_code, keep_live_tx,
}
use discord_oidc.Store.Memory.{
  InMemoryStore, put_transaction, take_transaction, taken, put_authorization_code, settle,
  consume_authorization_code, sweep_expired, memory_store,
}

-- The view: what the two maps hold.
unfoldable pub memory_view : View InMemoryStore
memory_view = record {
  WellFormed = λ s. IsOrdered s.transactions × IsOrdered s.codes;
  tx_at = λ s k. Dict.get k s.transactions;
  code_at = λ s k. Dict.get k s.codes;
}

-- The reply of a take, for each kind of record.
taken-Took :
    (held : Option AuthorizationTransaction) (now : ℤ) (r : TakeTransaction)
    → taken held now ≡ r
    → Took held now r
unfolding taken
taken-Took none now r e = ground arith
taken-Took (some tx) now r e = ground arith

module _ ⦃c : Crates⦄ where
  consume_only :
      (h : String) (check : ExchangeCheck) (now : ℤ) (s : InMemoryStore) (k : String)
      (y : StoredAuthorizationCode)
      → Dict.get k (consume_authorization_code h check now s).1.codes ≡ some y
      → Dict.get k s.codes ≡ some y
  unfolding consume_authorization_code
  consume_only h check now s k y e = ground (arith, get-remove h k s.codes)

  consume_txs :
      (h : String) (check : ExchangeCheck) (now : ℤ) (s : InMemoryStore) (k : String)
      → Dict.get k (consume_authorization_code h check now s).1.transactions
        ≡ Dict.get k s.transactions
  unfolding consume_authorization_code
  consume_txs h check now s k = ground arith

  settle-err :
      (h : String) (y : StoredAuthorizationCode) (d : ConsumeDeny) (s : InMemoryStore)
      → (settle h y (err d) s).0 ≡ ok (err d)
  unfolding settle
  settle-err h y Code.expired s = refl
  settle-err h y d s = refl

  consume_ok :
      (h : String) (check : ExchangeCheck) (now : ℤ) (s : InMemoryStore)
      (x : StoredAuthorizationCode)
      → (consume_authorization_code h check now s).0 ≡ ok (ok x)
      → (Dict.get h s.codes ≡ some x)
        × IsBound x check now
        × (Dict.get h (consume_authorization_code h check now s).1.codes ≡ none)
  unfolding consume_authorization_code
  consume_ok h check now s x e = elim (Option-cases (Dict.get h s.codes)) [
    | inl absent ↦ ground arith
    | inr (y, found) ↦ elim (Result-cases (evaluate_code_exchange y check now)) [
      | inl (u, passed) ↦
          let same : y ≡ x = ground arith in
          (
            rw found (ap some same),
            rw same at ((evaluate_code_exchange_ok_iff y check now).0 passed),
            ground (arith, get-remove h h s.codes, eq_refl h),
          )
      | inr (d, failed) ↦ absurd (ground (arith, settle-err h y d s))
    ]
  ]

  consume_denied :
      (h : String) (check : ExchangeCheck) (now : ℤ) (s : InMemoryStore) (d : ConsumeDeny)
      → (consume_authorization_code h check now s).0 ≡ ok (err d)
      → d ≢ Code.expired
      → (consume_authorization_code h check now s).1 ≡ s
  unfolding consume_authorization_code
  consume_denied h check now s d e = ground arith

  consume_reply :
      (h : String) (check : ExchangeCheck) (now : ℤ) (s : InMemoryStore)
      (r : Result StoredAuthorizationCode ConsumeDeny)
      → (consume_authorization_code h check now s).0 ≡ ok r
      → Replied (Dict.get h s.codes) check now r
  unfolding consume_authorization_code settle
  consume_reply h check now s r e = elim (Option-cases (Dict.get h s.codes)) [
    | inl absent ↦ let same : err unknown ≡ r = ground arith in rw (absent, ← same) refl
    | inr (y, found) ↦ elim (Result-cases (evaluate_code_exchange y check now)) [
      | inl (u, passed) ↦
          let same : ok y ≡ r = ground arith in
          rw (found, ← same) (refl, (evaluate_code_exchange_ok_iff y check now).0 passed)
      | inr (d, failed) ↦
          let same : err d ≡ r = ground (arith, settle-err h y d s) in
          rw (found, ← same) ((evaluate_code_exchange_err_iff y check now d).0 failed)
    ]
  ]

  consume_expired :
      (h : String) (check : ExchangeCheck) (now : ℤ) (s : InMemoryStore) (k : String)
      → (consume_authorization_code h check now s).0 ≡ ok (err Code.expired)
      → Dict.get k (consume_authorization_code h check now s).1.codes
        ≡ (if h == k then none else Dict.get k s.codes)
  unfolding consume_authorization_code settle
  consume_expired h check now s k e = ground (arith, get-remove h k s.codes)

  memory-KeepsWellFormed : KeepsWellFormed memory_store memory_view
  unfolding memory_store memory_view put_transaction take_transaction put_authorization_code
      sweep_expired consume_authorization_code
  memory-KeepsWellFormed = record {
    put_transaction_wf =
        λ tx s (t, x). (insert-IsOrdered tx.discord_oauth_state tx s.transactions t, x);
    take_transaction_wf = λ key now s (t, x). (remove-IsOrdered key s.transactions t, x);
    put_code_wf = λ y s (t, x). (t, insert-IsOrdered y.code_hash y s.codes x);
    consume_wf = λ h check now s (t, x). ground (arith, remove-IsOrdered h s.codes x);
    sweep_wf = λ now s (t, x). (retain-IsOrdered _ s.transactions t, retain-IsOrdered _ s.codes x);
  }

  live_txs :
      (now : ℤ) (s : InMemoryStore) (k : String)
      → IsOrdered s.transactions
      → Dict.get k (sweep_expired now s).1.transactions
        ≡ keep_if (live_tx now) (Dict.get k s.transactions)
  unfolding sweep_expired
  live_txs now s k t =
      get-retain (λ (z : AuthorizationTransaction). not (is_expired z now)) k s.transactions t
      ∙ keep_live_tx now (Dict.get k s.transactions)

  -- The in-memory store keeps the trait's contract, but for the number that a sweep returns: a take
  -- removes what it hands over; an exchange is answered by the bindings of the code that is held,
  -- a code that is handed over or expired is removed, and any other denial changes nothing; a
  -- sweep leaves exactly the records that have not expired; and nothing but a put makes a record
  -- appear.
  pub memory-IsStore : IsStore memory_store memory_view
  unfolding memory_store memory_view put_transaction take_transaction put_authorization_code
      sweep_expired
  memory-IsStore = record {
    keeps = memory-KeepsWellFormed;
    put_transaction_codes = λ tx s k. refl;
    put_transaction_ok = λ tx s k e. get-insert tx.discord_oauth_state k tx s.transactions;
    put_transaction_only = λ tx y s k e. ground (
      arith,
      get-insert tx.discord_oauth_state k tx s.transactions,
      eq_iff tx.discord_oauth_state k,
    );
    take_transaction_only = λ key now s k y e. ground (arith, get-remove key k s.transactions);
    consume_txs = consume_txs;
    sweep_txs_only = λ now s k y (t, x) e. ground (
      arith,
      get-retain (λ (z : AuthorizationTransaction). not (is_expired z now)) k s.transactions t,
    );
    take_transaction_codes = λ key now s k. refl;
    take_transaction_ok =
        λ key now s r e. taken-Took (Dict.get key s.transactions) now r (ground arith);
    take_transaction_removes = λ key now s r k e. get-remove key k s.transactions;
    put_code_txs = λ x s k. refl;
    put_code_only =
        λ x y s k e. ground (arith, get-insert x.code_hash k x s.codes, eq_iff x.code_hash k);
    put_code_ok = λ x s k e. get-insert x.code_hash k x s.codes;
    consume_only = consume_only;
    consume_ok = consume_ok;
    consume_denied = λ h check now s d k e ne. rw (consume_denied h check now s d e ne);
    sweep_only = λ now s k y (t, x) e.
        ground
          (arith, get-retain (λ (z : StoredAuthorizationCode). ltb_ℤ now z.expires_at) k s.codes x);
    consume_reply = consume_reply;
    consume_expired = consume_expired;
    sweep_txs = λ now s n k (t, x) e. live_txs now s k t;
    sweep_codes = λ now s n k (t, x) e. get-retain (live_code now) k s.codes x;
  }
