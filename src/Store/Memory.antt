-- ===== src/Store/Memory.antt =====
-- `InMemoryStore` of store.rs.
pub mod Laws
pub mod Sweep
use discord_oidc.Prelude.{
  ℕ, ◌+◌, String, Bool, not, [], ◌∷◌, Option, none, some, Result, ok, err, length, if◌then◌else◌,
}
use discord_oidc.Prelude.Int.{ℤ, ltb_ℤ}
use discord_oidc.Prelude.Dict
use discord_oidc.Prelude.Dict.{Dict}
use discord_oidc.Crates.{Crates}
use discord_oidc.Transaction.{AuthorizationTransaction, is_expired}
use discord_oidc.Code.{
  StoredAuthorizationCode, ExchangeCheck, ConsumeDeny, unknown, evaluate_code_exchange,
}
use discord_oidc.Code
use discord_oidc.Store.{AuthorizationStore, StoreError, TakeTransaction, missing, active, expired}

pub record InMemoryStore : Type 0 where
  pub transactions : Dict AuthorizationTransaction
  pub codes : Dict StoredAuthorizationCode

-- `new`.
unfoldable pub new_store : InMemoryStore
new_store = record { transactions = Dict.empty; codes = Dict.empty }

unfoldable pub transaction_count : InMemoryStore → ℕ
transaction_count s = length s.transactions

unfoldable pub code_count : InMemoryStore → ℕ
code_count s = length s.codes

unfoldable pub put_transaction :
    AuthorizationTransaction → InMemoryStore → Result (Unit {0}) StoreError × InMemoryStore
put_transaction tx s =
    (ok tt, record s { transactions = Dict.insert tx.discord_oauth_state tx s.transactions })

-- The reply for what was removed.
unfoldable pub taken : Option AuthorizationTransaction → ℤ → TakeTransaction
taken none now = missing
taken (some tx) now = if is_expired tx now then expired tx else active tx

unfoldable pub take_transaction :
    String → ℤ → InMemoryStore → Result TakeTransaction StoreError × InMemoryStore
unfolding taken
take_transaction key now s =
    let removed = Dict.get key s.transactions in
    (ok (taken removed now), record s { transactions = Dict.remove key s.transactions })

unfoldable pub put_authorization_code :
    StoredAuthorizationCode → InMemoryStore → Result (Unit {0}) StoreError × InMemoryStore
put_authorization_code x s = (ok tt, record s { codes = Dict.insert x.code_hash x s.codes })

module _ ⦃c : Crates⦄ where
  -- What the evaluation of a record does to the map.
  unfoldable pub settle :
      String
      → StoredAuthorizationCode
      → Result (Unit {0}) ConsumeDeny
      → InMemoryStore
      → Result (Result StoredAuthorizationCode ConsumeDeny) StoreError × InMemoryStore
  settle h x (ok _) s = (ok (ok x), record s { codes = Dict.remove h s.codes })
  settle h x (err Code.expired) s =
      (ok (err Code.expired), record s { codes = Dict.remove h s.codes })
  settle h x (err deny) s = (ok (err deny), s)

  unfoldable pub consume_authorization_code :
      String
      → ExchangeCheck
      → ℤ
      → InMemoryStore
      → Result (Result StoredAuthorizationCode ConsumeDeny) StoreError × InMemoryStore
  unfolding settle
  consume_authorization_code h check now s = elim (Dict.get h s.codes) [
    | none ↦ (ok (err unknown), s)
    | some x ↦ settle h x (evaluate_code_exchange x check now) s
  ]

-- How many values `retain` drops: the closures count them as they go.
unfoldable pub count_dropped {ℓ} : {V : Type ℓ} → (V → Bool) → Dict V → ℕ
count_dropped keep m = elim m [
  | [] ↦ 0
  | (e ∷ (rest → dropped)) ↦ if keep e.1 then dropped else dropped + 1
]

unfoldable pub sweep_expired : ℤ → InMemoryStore → Result ℕ StoreError × InMemoryStore
unfolding count_dropped
sweep_expired now s =
    let keep_tx = λ (tx : AuthorizationTransaction). not (is_expired tx now) in
    let keep_code = λ (x : StoredAuthorizationCode). ltb_ℤ now x.expires_at in
    (
      ok (count_dropped keep_tx s.transactions + count_dropped keep_code s.codes),
      record s {
        transactions = Dict.retain keep_tx s.transactions;
        codes = Dict.retain keep_code s.codes;
      },
    )

module _ ⦃c : Crates⦄ where
  unfoldable pub memory_store : AuthorizationStore InMemoryStore
  memory_store = record {
    put_transaction = put_transaction;
    take_transaction = take_transaction;
    put_authorization_code = put_authorization_code;
    consume_authorization_code = consume_authorization_code;
    sweep_expired = sweep_expired;
  }
