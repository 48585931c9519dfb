-- ===== src/Worker/StoreMessages.antt =====
-- crates/discord-oidc-worker: what each message of do_store.rs does to the entries of
-- durable.rs.
use discord_oidc.Prelude.{
  String, ◌≡◌, refl, ap, ◌∙◌, inl, inr, Option, some, Result, ok, arith, ◌==◌, if◌then◌else◌,
  Result-cases,
}
use discord_oidc.Prelude.Int.{ℤ}
use discord_oidc.Crates.{Crates}
use discord_oidc.Transaction.{AuthorizationTransaction}
use discord_oidc.Code.{StoredAuthorizationCode, ExchangeCheck}
use discord_oidc.Worker.Storage.{
  Delivery-state, WorkerError, Storage, IsStorage, and_then_state, IsStub,
}
use discord_oidc.Worker.AuthorizationState.{
  tx_key, code_key, Entry, transaction, code, Message, tx_body, code_body, take_body, consume_body,
  sweep_body, Response, removed, json_ok, fetch, sweep, tx_of_body, code_of_body, take_of_body,
  consume_of_body, sweep_of_body,
}
use discord_oidc.Worker.DoStore.{do_store, accept, read_any}
use discord_oidc.Worker.Entries.{
  Wrote, Dropped, Shrunk, put_entry-Wrote, put_entry_ok, take-Dropped, consume-Dropped,
  sweep-Shrunk,
}
use discord_oidc.Worker.StoreEntries.{Delivery-ok}

module _ ⦃c : Crates⦄ {S : Type 0} (storage : Storage Entry S) (held : S → String → Option Entry)
    (laws : IsStorage storage held) (stub : Message → S → Result Response WorkerError × S)
    (stub_laws : IsStub (fetch storage) stub) where
  pub put_transaction-Wrote :
      (tx : AuthorizationTransaction) (s : S)
      → Wrote storage held laws
          (tx_key tx.discord_oauth_state)
          (transaction tx)
          s
          ((do_store stub).put_transaction tx s).1
  unfolding do_store fetch tx_of_body
  put_transaction-Wrote tx s =
      let m : Message = record { method = "PUT"; path = "/transactions"; body = tx_body tx } in
      Delivery-state (fetch storage)
        (Wrote storage held laws (tx_key tx.discord_oauth_state) (transaction tx) s) m s (stub m s)
        (stub_laws m s) (record { others = λ j n. refl; own = λ y e. inl e })
        (put_entry-Wrote storage held laws (tx_key tx.discord_oauth_state) (transaction tx) s)

  pub put_code-Wrote :
      (x : StoredAuthorizationCode) (s : S)
      → Wrote storage held laws
          (code_key x.code_hash)
          (code x)
          s
          ((do_store stub).put_authorization_code x s).1
  unfolding do_store fetch code_of_body
  put_code-Wrote x s =
      let m : Message = record { method = "PUT"; path = "/codes"; body = code_body x } in
      Delivery-state (fetch storage) (Wrote storage held laws (code_key x.code_hash) (code x) s) m s
        (stub m s) (stub_laws m s) (record { others = λ j n. refl; own = λ y e. inl e })
        (put_entry-Wrote storage held laws (code_key x.code_hash) (code x) s)

  pub take-message-Dropped :
      (state : String) (now : ℤ) (s : S)
      → Dropped storage held laws (tx_key state) s ((do_store stub).take_transaction state now s).1
  unfolding do_store fetch take_of_body
  take-message-Dropped state now s =
      let m : Message = record {
        method = "POST";
        path = "/take-transaction";
        body = take_body state now;
      } in
      Delivery-state (fetch storage) (Dropped storage held laws (tx_key state) s) m s (stub m s)
        (stub_laws m s) (record { others = λ j n. refl; own = λ y e. e })
        (take-Dropped storage held laws state now s)

  pub consume-message-Dropped :
      (h : String) (check : ExchangeCheck) (now : ℤ) (s : S)
      → Dropped storage held laws
          (code_key h)
          s
          ((do_store stub).consume_authorization_code h check now s).1
  unfolding do_store fetch consume_of_body
  consume-message-Dropped h check now s =
      let m : Message = record {
        method = "POST";
        path = "/consume-code";
        body = consume_body h check now;
      } in
      Delivery-state (fetch storage) (Dropped storage held laws (code_key h) s) m s (stub m s)
        (stub_laws m s) (record { others = λ j n. refl; own = λ y e. e })
        (consume-Dropped storage held laws h check now s)

  pub sweep-message-Shrunk :
      (now : ℤ) (s : S) → Shrunk storage held laws s ((do_store stub).sweep_expired now s).1
  unfolding do_store fetch sweep_of_body
  sweep-message-Shrunk now s =
      let m : Message = record { method = "POST"; path = "/sweep"; body = sweep_body now } in
      Delivery-state (fetch storage) (Shrunk storage held laws s) m s (stub m s) (stub_laws m s)
        (λ j y e. e)
        (and_then_state (Shrunk storage held laws s) (sweep storage now s)
          (λ n t. (ok (json_ok (removed n)), t)) (sweep-Shrunk storage held laws now s) (λ n h. h))

  pub put_transaction_answer :
      (tx : AuthorizationTransaction) (s : S) (j : String)
      → ((do_store stub).put_transaction tx s).0 ≡ ok tt
      → held ((do_store stub).put_transaction tx s).1 j
        ≡ (if tx_key tx.discord_oauth_state == j then some (transaction tx) else held s j)
  unfolding do_store fetch tx_of_body read_any
  put_transaction_answer tx s j e =
      let m : Message = record { method = "PUT"; path = "/transactions"; body = tx_body tx } in
      elim (Result-cases (accept (stub m s).0)) [
        | inr (f, bad) ↦ absurd (ground arith)
        | inl (reply, good) ↦
            let (r, answered, _, state) =
              Delivery-ok storage held laws stub stub_laws m s (stub m s) reply (stub_laws m s)
                good in
            ap (λ t. held t j) state
            ∙ put_entry_ok storage held laws (tx_key tx.discord_oauth_state) j (transaction tx) s r
                answered
      ]

  pub put_code_answer :
      (x : StoredAuthorizationCode) (s : S) (j : String)
      → ((do_store stub).put_authorization_code x s).0 ≡ ok tt
      → held ((do_store stub).put_authorization_code x s).1 j
        ≡ (if code_key x.code_hash == j then some (code x) else held s j)
  unfolding do_store fetch code_of_body read_any
  put_code_answer x s j e =
      let m : Message = record { method = "PUT"; path = "/codes"; body = code_body x } in
      elim (Result-cases (accept (stub m s).0)) [
        | inr (f, bad) ↦ absurd (ground arith)
        | inl (reply, good) ↦
            let (r, answered, _, state) =
              Delivery-ok storage held laws stub stub_laws m s (stub m s) reply (stub_laws m s)
                good in
            ap (λ t. held t j) state
            ∙ put_entry_ok storage held laws (code_key x.code_hash) j (code x) s r answered
      ]
