-- ===== src/Worker/DoStore.antt =====
-- crates/discord-oidc-worker/src/do_store.rs: the store that sends each operation to the object.
use discord_oidc.Prelude.{ℕ, String, Result, ok, err, leb, ltb, not, ◌&&◌, if◌then◌else◌}
use discord_oidc.Code.{StoredAuthorizationCode, ConsumeDeny}
use discord_oidc.Store.{AuthorizationStore, StoreError, store_error, TakeTransaction}
use discord_oidc.Store
use discord_oidc.Worker.Storage.{WorkerError}
use discord_oidc.Worker.AuthorizationState.{
  Message, Body, tx_body, code_body, take_body, consume_body, sweep_body, Response, Reply, took,
  exchanged, removed, TakeTransactionReply, missing, active, expired, ConsumeCodeReply, consumed,
  denied,
}

-- The reply of a response with a status of success, which is read after it.
unfoldable pub accept : Result Response WorkerError → Result Reply StoreError
accept (err e) = err store_error
accept (ok response) =
    if not (leb 200 response.status && ltb response.status 300)
    then err store_error
    else ok response.reply

unfoldable pub read_any : Result Reply StoreError → Result (Unit {0}) StoreError
read_any (ok reply) = ok tt
read_any (err e) = err e

unfoldable pub as_take : TakeTransactionReply → TakeTransaction
as_take missing = Store.missing
as_take (active tx) = Store.active tx
as_take (expired tx) = Store.expired tx

unfoldable pub read_taken : Result Reply StoreError → Result TakeTransaction StoreError
unfolding as_take
read_taken (ok (took reply)) = ok (as_take reply)
read_taken (ok _) = err store_error
read_taken (err e) = err e

unfoldable pub as_exchange : ConsumeCodeReply → Result StoredAuthorizationCode ConsumeDeny
as_exchange (consumed x) = ok x
as_exchange (denied d) = err d

unfoldable pub read_exchanged :
    Result Reply StoreError → Result (Result StoredAuthorizationCode ConsumeDeny) StoreError
unfolding as_exchange
read_exchanged (ok (exchanged reply)) = ok (as_exchange reply)
read_exchanged (ok _) = err store_error
read_exchanged (err e) = err e

unfoldable pub read_removed : Result Reply StoreError → Result ℕ StoreError
read_removed (ok (removed n)) = ok n
read_removed (ok _) = err store_error
read_removed (err e) = err e

module _ {S : Type 0} (stub : Message → S → Result Response WorkerError × S) where
  unfoldable pub post : String → String → Body → S → Result Reply StoreError × S
  unfolding accept
  post method path body s =
      let (answer, t) = stub (record { method = method; path = path; body = body }) s in
      (accept answer, t)

  unfoldable pub do_store : AuthorizationStore S
  unfolding post read_any read_taken read_exchanged read_removed
  do_store = record {
    put_transaction =
        λ tx s. let (reply, t) = post "PUT" "/transactions" (tx_body tx) s in (read_any reply, t);
    take_transaction = λ state now s.
        let (reply, t) = post "POST" "/take-transaction" (take_body state now) s in
        (read_taken reply, t);
    put_authorization_code =
        λ x s. let (reply, t) = post "PUT" "/codes" (code_body x) s in (read_any reply, t);
    consume_authorization_code = λ h check now s.
        let (reply, t) = post "POST" "/consume-code" (consume_body h check now) s in
        (read_exchanged reply, t);
    sweep_expired = λ now s.
        let (reply, t) = post "POST" "/sweep" (sweep_body now) s in (read_removed reply, t);
  }
