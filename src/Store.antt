-- ===== src/Store.antt =====
-- crates/oidc-core/src/store.rs: the store of transactions and authorization codes. The trait is a
-- record of operations and its contract a record of laws; the in-memory store is `Store.Memory`.
pub mod Memory
pub mod Contract
pub mod SingleUse
use discord_oidc.Prelude.{ℕ, String, Option, Result}
use discord_oidc.Prelude.Int.{ℤ}
use discord_oidc.Transaction.{AuthorizationTransaction}
use discord_oidc.Code.{StoredAuthorizationCode, ExchangeCheck, ConsumeDeny}

pub data StoreError : Type 0 where
  store_error : StoreError

pub data TakeTransaction : Type 0 where
  missing : TakeTransaction
  active : AuthorizationTransaction → TakeTransaction
  expired : AuthorizationTransaction → TakeTransaction

-- The trait `AuthorizationStore` over a store's state `S`. Each operation is one atomic step.
pub record AuthorizationStore (S : Type 0) : Type 0 where
  pub put_transaction : AuthorizationTransaction → S → Result (Unit {0}) StoreError × S
  pub take_transaction : String → ℤ → S → Result TakeTransaction StoreError × S
  pub put_authorization_code : StoredAuthorizationCode → S → Result (Unit {0}) StoreError × S
  pub consume_authorization_code :
      String
      → ExchangeCheck
      → ℤ
      → S
      → Result (Result StoredAuthorizationCode ConsumeDeny) StoreError × S
  pub sweep_expired : ℤ → S → Result ℕ StoreError × S
