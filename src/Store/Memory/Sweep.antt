-- ===== src/Store/Memory/Sweep.antt =====
-- What a sweep removes and what it keeps.
use discord_oidc.Prelude.{ℕ, ◌+◌, String, ◌≡◌, refl, Bool, not, [], ◌∷◌, ok, arith, length}
use discord_oidc.Prelude.Int.{ℤ, ltb_ℤ}
use discord_oidc.Prelude.Dict
use discord_oidc.Prelude.Dict.{Dict}
use discord_oidc.Prelude.Dict.Order.{IsOrdered, get-retain, keep_if}
use discord_oidc.Transaction.{AuthorizationTransaction, is_expired}
use discord_oidc.Code.{StoredAuthorizationCode}
use discord_oidc.Store.Memory.{
  InMemoryStore, sweep_expired, count_dropped, transaction_count, code_count,
}

count_dropped_lem {ℓ} :
    {V : Type ℓ} (keep : V → Bool) (m : Dict V)
    → count_dropped keep m + length (Dict.retain keep m) ≡ length m
unfolding count_dropped Dict.retain
count_dropped_lem keep [] = refl
count_dropped_lem keep ((k, v) ∷ m) = ground (arith, count_dropped_lem keep m)

-- What a sweep is for: expired records go, live ones stay, and the reply counts the removed ones.
pub record Swept (now : ℤ) (s t : InMemoryStore) (removed : ℕ) : Type 0 where
  pub txs :
      (k : String)
      → Dict.get k t.transactions
        ≡ keep_if
            (λ (tx : AuthorizationTransaction). not (is_expired tx now))
            (Dict.get k s.transactions)
  pub codes :
      (k : String)
      → Dict.get k t.codes
        ≡ keep_if (λ (x : StoredAuthorizationCode). ltb_ℤ now x.expires_at) (Dict.get k s.codes)
  pub counted : removed + (transaction_count t + code_count t) ≡ transaction_count s + code_count s

-- From maps in order, a sweep leaves under each key exactly the record that had not expired, and
-- returns the number of records that it removed.
pub sweep_expired-Swept :
    (now : ℤ) (s : InMemoryStore)
    → IsOrdered s.transactions
    → IsOrdered s.codes
    → (n : ℕ) × (((sweep_expired now s).0 ≡ ok n) × Swept now s (sweep_expired now s).1 n)
unfolding sweep_expired transaction_count code_count
sweep_expired-Swept now s t x = (
  _,
  (
    refl,
    record {
      txs = λ k. get-retain _ k s.transactions t;
      codes = λ k. get-retain _ k s.codes x;
      counted =
          let live = λ (tx : AuthorizationTransaction). not (is_expired tx now) in
          let fresh = λ (y : StoredAuthorizationCode). ltb_ℤ now y.expires_at in
          omega (arith, count_dropped_lem live s.transactions, count_dropped_lem fresh s.codes);
    },
  ),
)
