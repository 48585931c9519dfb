-- ===== src/Worker/AuthorizationState.antt =====
-- crates/discord-oidc-worker/src/durable.rs: the object that holds transactions and codes. A body
-- carries the fields of what was sent; reading it as another type fails where fields are missing.
use Prim.Native.String
use discord_oidc.Prelude.{
  ℕ, suc, String, Option, none, some, List, [], ◌∷◌, Result, ok, err, is_empty, length, ltb, ◌==◌,
  ◌&&◌, if◌then◌else◌,
}
use discord_oidc.Prelude.Int.{ℤ, pos, leb_ℤ}
use discord_oidc.Crates.{Crates}
use discord_oidc.Transaction.{AuthorizationTransaction, is_expired}
use discord_oidc.Code.{
  StoredAuthorizationCode, ExchangeCheck, ConsumeDeny, evaluate_code_exchange, unknown,
}
use discord_oidc.Code
use discord_oidc.Worker.Storage.{WorkerError, worker_error, Storage, and_then}

abbrev pub sweep_interval : ℤ
sweep_interval = pos 120

unfoldable pub tx_key : String → String
tx_key discord_oauth_state = String.◌++◌ "tx:" discord_oauth_state

unfoldable pub code_key : String → String
code_key code_hash = String.◌++◌ "code:" code_hash

-- What the storage holds.
pub data Entry : Type 0 where
  transaction : AuthorizationTransaction → Entry
  code : StoredAuthorizationCode → Entry

pub data TakeTransactionReply : Type 0 where
  missing : TakeTransactionReply
  active : AuthorizationTransaction → TakeTransactionReply
  expired : AuthorizationTransaction → TakeTransactionReply

pub data ConsumeCodeReply : Type 0 where
  consumed : StoredAuthorizationCode → ConsumeCodeReply
  denied : ConsumeDeny → ConsumeCodeReply

pub data Body : Type 0 where
  no_body : Body
  tx_body : AuthorizationTransaction → Body
  code_body : StoredAuthorizationCode → Body
  take_body : String → ℤ → Body
  consume_body : String → ExchangeCheck → ℤ → Body
  sweep_body : ℤ → Body

pub record Message : Type 0 where
  pub method : String
  pub path : String
  pub body : Body

pub data Reply : Type 0 where
  done : Reply
  took : TakeTransactionReply → Reply
  exchanged : ConsumeCodeReply → Reply
  removed : ℕ → Reply
  error : String → Reply

pub record Response : Type 0 where
  pub status : ℕ
  pub reply : Reply

-- `req.json()` at the type that a route wants.
abbrev malformed {ℓ} : {A : Type ℓ} → Result A WorkerError
malformed = err (worker_error "malformed body")

unfoldable pub tx_of_body : Body → Result AuthorizationTransaction WorkerError
tx_of_body (tx_body tx) = ok tx
tx_of_body _ = malformed

unfoldable pub code_of_body : Body → Result StoredAuthorizationCode WorkerError
code_of_body (code_body x) = ok x
code_of_body _ = malformed

unfoldable pub take_of_body : Body → Result (String × ℤ) WorkerError
take_of_body (take_body state now) = ok (state, now)
take_of_body _ = malformed

unfoldable pub consume_of_body : Body → Result (String × ExchangeCheck × ℤ) WorkerError
consume_of_body (consume_body h check now) = ok (h, check, now)
consume_of_body _ = malformed

unfoldable pub sweep_of_body : Body → Result ℤ WorkerError
sweep_of_body (sweep_body now) = ok now
sweep_of_body (take_body state now) = ok now
sweep_of_body (consume_body h check now) = ok now
sweep_of_body _ = malformed

-- `storage.get` at a type.
unfoldable pub as_tx :
    Result (Option Entry) WorkerError → Result (Option AuthorizationTransaction) WorkerError
as_tx (err e) = err e
as_tx (ok none) = ok none
as_tx (ok (some (transaction tx))) = ok (some tx)
as_tx (ok (some (code x))) = err (worker_error "not a transaction")

unfoldable pub as_code :
    Result (Option Entry) WorkerError → Result (Option StoredAuthorizationCode) WorkerError
as_code (err e) = err e
as_code (ok none) = ok none
as_code (ok (some (code x))) = ok (some x)
as_code (ok (some (transaction tx))) = err (worker_error "not a code")

-- `value.get("expires_at")`
unfoldable pub entry_expires_at : Entry → ℤ
entry_expires_at (transaction tx) = tx.expires_at
entry_expires_at (code x) = x.expires_at

-- The loop over the entries: the expired keys, and how many remain.
unfoldable pub partition : ℤ → List (String × Entry) → List String × ℕ
unfolding entry_expires_at
partition now [] = ([], 0)
partition now ((k, x) ∷ entries) =
    let (expired_keys, remaining) = partition now entries in
    if leb_ℤ (entry_expires_at x) now
    then (k ∷ expired_keys, remaining)
    else (expired_keys, suc remaining)

abbrev pub json_ok : Reply → Response
json_ok reply = record { status = 200; reply = reply }

module _ ⦃c : Crates⦄ {S : Type 0} (storage : Storage Entry S) where
  unfoldable pub delete_expired : List String → S → Result (Unit {0}) WorkerError × S
  delete_expired keys s =
      if is_empty keys
      then (ok tt, s)
      else and_then (storage.delete_multiple keys s) (λ n t. (ok tt, t))

  -- The next sweep, while anything remains.
  unfoldable pub keep_sweeping : ℕ → ℕ → S → Result ℕ WorkerError × S
  keep_sweeping count remaining s =
      if ltb 0 remaining
      then and_then (storage.set_alarm sweep_interval s) (λ u t. (ok count, t))
      else (ok count, s)

  unfoldable pub sweep_entries : List String × ℕ → S → Result ℕ WorkerError × S
  unfolding delete_expired keep_sweeping
  sweep_entries (keys, remaining) s =
      and_then (delete_expired keys s) (λ u t. keep_sweeping (length keys) remaining t)

  unfoldable pub sweep : ℤ → S → Result ℕ WorkerError × S
  unfolding sweep_entries partition
  sweep now s = and_then (storage.list s, s) (λ entries t. sweep_entries (partition now entries) t)

  unfoldable pub ensure_alarm : S → Result (Unit {0}) WorkerError × S
  ensure_alarm s =
      and_then (storage.get_alarm s, s)
        (λ alarm t. elim alarm [ none ↦ storage.set_alarm sweep_interval t | some at ↦ (ok tt, t) ])

  -- A put, followed by the alarm.
  unfoldable pub put_entry : String → Entry → S → Result Response WorkerError × S
  unfolding ensure_alarm
  put_entry key x s =
      and_then (storage.put key x s)
        (λ u t. and_then (ensure_alarm t) (λ v t'. (ok (json_ok done), t')))

  unfoldable pub taken_reply : AuthorizationTransaction → ℤ → TakeTransactionReply
  taken_reply tx now = if is_expired tx now then expired tx else active tx

  unfoldable pub take_found :
      String → ℤ → Option AuthorizationTransaction → S → Result TakeTransactionReply WorkerError × S
  unfolding taken_reply
  take_found key now none s = (ok missing, s)
  take_found key now (some tx) s =
      and_then (storage.delete key s) (λ b t. (ok (taken_reply tx now), t))

  unfoldable pub take_transaction : String → ℤ → S → Result Response WorkerError × S
  unfolding take_found as_tx tx_key
  take_transaction state now s =
      and_then (as_tx (storage.get (tx_key state) s), s)
        (λ found t.
          and_then (take_found (tx_key state) now found t)
            (λ reply t'. (ok (json_ok (took reply)), t')))

  -- What the evaluation of a record does.
  unfoldable pub settle :
      String
      → StoredAuthorizationCode
      → Result (Unit {0}) ConsumeDeny
      → S
      → Result ConsumeCodeReply WorkerError × S
  settle key x (ok _) s = and_then (storage.delete key s) (λ b t. (ok (consumed x), t))
  settle key x (err Code.expired) s =
      and_then (storage.delete key s) (λ b t. (ok (denied Code.expired), t))
  settle key x (err deny) s = (ok (denied deny), s)

  unfoldable pub consume_found :
      String
      → ExchangeCheck
      → ℤ
      → Option StoredAuthorizationCode
      → S
      → Result ConsumeCodeReply WorkerError × S
  unfolding settle
  consume_found key check now none s = (ok (denied unknown), s)
  consume_found key check now (some x) s = settle key x (evaluate_code_exchange x check now) s

  unfoldable pub consume_code : String → ExchangeCheck → ℤ → S → Result Response WorkerError × S
  unfolding consume_found as_code code_key
  consume_code h check now s =
      and_then (as_code (storage.get (code_key h) s), s)
        (λ found t.
          and_then (consume_found (code_key h) check now found t)
            (λ reply t'. (ok (json_ok (exchanged reply)), t')))

  unfoldable pub fetch : Message → S → Result Response WorkerError × S
  unfolding put_entry take_transaction consume_code sweep tx_of_body code_of_body take_of_body
      consume_of_body sweep_of_body
  fetch m s =
      if m.method == "PUT" && m.path == "/transactions"
      then and_then (tx_of_body m.body, s)
          (λ tx t. put_entry (tx_key tx.discord_oauth_state) (transaction tx) t)
      else if m.method == "PUT" && m.path == "/codes"
      then and_then (code_of_body m.body, s) (λ x t. put_entry (code_key x.code_hash) (code x) t)
      else if m.method == "POST" && m.path == "/take-transaction"
      then and_then (take_of_body m.body, s) (λ (state, now) t. take_transaction state now t)
      else if m.method == "POST" && m.path == "/consume-code"
      then and_then (consume_of_body m.body, s) (λ (h, check, now) t. consume_code h check now t)
      else if m.method == "POST" && m.path == "/sweep"
      then and_then (sweep_of_body m.body, s)
          (λ now t. and_then (sweep now t) (λ n t'. (ok (json_ok (removed n)), t')))
      else (ok (record { status = 404; reply = error "not found" }), s)

  unfoldable pub alarm : ℤ → S → Result (Unit {0}) WorkerError × S
  unfolding sweep
  alarm now s = and_then (sweep now s) (λ n t. (ok tt, t))
