-- ===== src/Store/Contract.antt =====
-- The contract that the trait's documentation states, over what a store holds under each key, but for
-- the number that a sweep returns. A failing write may or may not have happened; nothing else may
-- change then.
use discord_oidc.Prelude.{
  ℕ, Bool, Bool-cases, not, refl, inl, inr, arith, Result, String, ◌≡◌, ◌≢◌, ◌⊎◌, Option, none,
  some, ok, err, false, true, ◌==◌, if◌then◌else◌,
}
use discord_oidc.Prelude.Int.{ℤ, ltb_ℤ, leb_ℤ}
use discord_oidc.Prelude.Dict.Order.{keep_if}
use discord_oidc.Crates.{Crates}
use discord_oidc.Transaction.{AuthorizationTransaction, is_expired}
use discord_oidc.Code.{StoredAuthorizationCode, ExchangeCheck, ConsumeDeny, unknown}
use discord_oidc.Code
use discord_oidc.Code.Exchange.{IsBound, Denied}
use discord_oidc.Store.{AuthorizationStore, TakeTransaction, missing, active, expired}

-- What a store holds, seen from outside, and the invariant of its states.
pub record View (S : Type 0) : Type 1 where
  pub WellFormed : S → Type 0
  pub tx_at : S → String → Option AuthorizationTransaction
  pub code_at : S → String → Option StoredAuthorizationCode

-- The transaction that a take hands over was there, and is in the state that the reply says.
abbrev pub Took : Option AuthorizationTransaction → ℤ → TakeTransaction → Type 0
Took held now missing = held ≡ none
Took held now (active tx) = (held ≡ some tx) × (is_expired tx now ≡ false)
Took held now (expired tx) = (held ≡ some tx) × (is_expired tx now ≡ true)

-- What an exchange answers, against what was held under the hash.
abbrev pub Replied :
    ⦃c : Crates⦄
    → Option StoredAuthorizationCode
    → ExchangeCheck
    → ℤ
    → Result StoredAuthorizationCode ConsumeDeny
    → Type 0
Replied none check now (ok y) = ⊥
Replied none check now (err d) = d ≡ unknown
Replied (some x) check now (ok y) = (x ≡ y) × IsBound x check now
Replied (some x) check now (err d) = Denied x check now d

-- What survives a sweep.
abbrev pub live_tx : ℤ → AuthorizationTransaction → Bool
live_tx now tx = ltb_ℤ now tx.expires_at

abbrev pub live_code : ℤ → StoredAuthorizationCode → Bool
live_code now x = ltb_ℤ now x.expires_at

not_expired : (now : ℤ) (tx : AuthorizationTransaction) → not (is_expired tx now) ≡ live_tx now tx
unfolding is_expired
not_expired now tx = elim (Bool-cases (leb_ℤ tx.expires_at now)) [
  | inl past ↦ ground arith
  | inr live ↦ ground arith
]

pub keep_live_tx :
    (now : ℤ) (o : Option AuthorizationTransaction)
    → keep_if (λ (tx : AuthorizationTransaction). not (is_expired tx now)) o
      ≡ keep_if (live_tx now) o
keep_live_tx now none = refl
keep_live_tx now (some tx) = rw (not_expired now tx) refl

module _ ⦃c : Crates⦄ {S : Type 0} where
  -- Every operation keeps the invariant.
  pub record KeepsWellFormed (o : AuthorizationStore S) (v : View S) : Type 0 where
    pub put_transaction_wf :
        (tx : AuthorizationTransaction) (s : S)
        → v.WellFormed s
        → v.WellFormed (o.put_transaction tx s).1
    pub take_transaction_wf :
        (key : String) (now : ℤ) (s : S)
        → v.WellFormed s
        → v.WellFormed (o.take_transaction key now s).1
    pub put_code_wf :
        (x : StoredAuthorizationCode) (s : S)
        → v.WellFormed s
        → v.WellFormed (o.put_authorization_code x s).1
    pub consume_wf :
        (h : String) (check : ExchangeCheck) (now : ℤ) (s : S)
        → v.WellFormed s
        → v.WellFormed (o.consume_authorization_code h check now s).1
    pub sweep_wf : (now : ℤ) (s : S) → v.WellFormed s → v.WellFormed (o.sweep_expired now s).1

  pub record IsStore (o : AuthorizationStore S) (v : View S) : Type 0 where
    pub keeps : KeepsWellFormed o v
    pub open keeps use *
    pub put_transaction_codes :
        (tx : AuthorizationTransaction) (s : S) (k : String)
        → v.code_at (o.put_transaction tx s).1 k ≡ v.code_at s k
    pub put_transaction_ok :
        (tx : AuthorizationTransaction) (s : S) (k : String)
        → (o.put_transaction tx s).0 ≡ ok tt
        → v.tx_at (o.put_transaction tx s).1 k
          ≡ (if tx.discord_oauth_state == k then some tx else v.tx_at s k)
    pub put_transaction_only :
        (tx y : AuthorizationTransaction) (s : S) (k : String)
        → v.tx_at (o.put_transaction tx s).1 k ≡ some y
        → (v.tx_at s k ≡ some y) ⊎ ((tx.discord_oauth_state ≡ k) × (tx ≡ y))
    pub take_transaction_only :
        (key : String) (now : ℤ) (s : S) (k : String) (y : AuthorizationTransaction)
        → v.tx_at (o.take_transaction key now s).1 k ≡ some y
        → v.tx_at s k ≡ some y
    pub consume_txs :
        (h : String) (check : ExchangeCheck) (now : ℤ) (s : S) (k : String)
        → v.tx_at (o.consume_authorization_code h check now s).1 k ≡ v.tx_at s k
    pub sweep_txs_only :
        (now : ℤ) (s : S) (k : String) (y : AuthorizationTransaction)
        → v.WellFormed s
        → v.tx_at (o.sweep_expired now s).1 k ≡ some y
        → v.tx_at s k ≡ some y
    pub take_transaction_codes :
        (key : String) (now : ℤ) (s : S) (k : String)
        → v.code_at (o.take_transaction key now s).1 k ≡ v.code_at s k
    pub take_transaction_ok :
        (key : String) (now : ℤ) (s : S) (r : TakeTransaction)
        → (o.take_transaction key now s).0 ≡ ok r
        → Took (v.tx_at s key) now r
    pub take_transaction_removes :
        (key : String) (now : ℤ) (s : S) (r : TakeTransaction) (k : String)
        → (o.take_transaction key now s).0 ≡ ok r
        → v.tx_at (o.take_transaction key now s).1 k ≡ (if key == k then none else v.tx_at s k)
    pub put_code_txs :
        (x : StoredAuthorizationCode) (s : S) (k : String)
        → v.tx_at (o.put_authorization_code x s).1 k ≡ v.tx_at s k
    pub put_code_only :
        (x y : StoredAuthorizationCode) (s : S) (k : String)
        → v.code_at (o.put_authorization_code x s).1 k ≡ some y
        → (v.code_at s k ≡ some y) ⊎ ((x.code_hash ≡ k) × (x ≡ y))
    pub put_code_ok :
        (x : StoredAuthorizationCode) (s : S) (k : String)
        → (o.put_authorization_code x s).0 ≡ ok tt
        → v.code_at (o.put_authorization_code x s).1 k
          ≡ (if x.code_hash == k then some x else v.code_at s k)
    pub consume_only :
        (h : String) (check : ExchangeCheck) (now : ℤ) (s : S) (k : String)
        (y : StoredAuthorizationCode)
        → v.code_at (o.consume_authorization_code h check now s).1 k ≡ some y
        → v.code_at s k ≡ some y
    pub consume_ok :
        (h : String) (check : ExchangeCheck) (now : ℤ) (s : S) (x : StoredAuthorizationCode)
        → (o.consume_authorization_code h check now s).0 ≡ ok (ok x)
        → (v.code_at s h ≡ some x)
          × IsBound x check now
          × (v.code_at (o.consume_authorization_code h check now s).1 h ≡ none)
    pub consume_denied :
        (h : String) (check : ExchangeCheck) (now : ℤ) (s : S) (d : ConsumeDeny) (k : String)
        → (o.consume_authorization_code h check now s).0 ≡ ok (err d)
        → d ≢ Code.expired
        → v.code_at (o.consume_authorization_code h check now s).1 k ≡ v.code_at s k
    pub sweep_only :
        (now : ℤ) (s : S) (k : String) (y : StoredAuthorizationCode)
        → v.WellFormed s
        → v.code_at (o.sweep_expired now s).1 k ≡ some y
        → v.code_at s k ≡ some y
    pub consume_reply :
        (h : String) (check : ExchangeCheck) (now : ℤ) (s : S)
        (r : Result StoredAuthorizationCode ConsumeDeny)
        → (o.consume_authorization_code h check now s).0 ≡ ok r
        → Replied (v.code_at s h) check now r
    pub consume_expired :
        (h : String) (check : ExchangeCheck) (now : ℤ) (s : S) (k : String)
        → (o.consume_authorization_code h check now s).0 ≡ ok (err Code.expired)
        → v.code_at (o.consume_authorization_code h check now s).1 k
          ≡ (if h == k then none else v.code_at s k)
    pub sweep_txs :
        (now : ℤ) (s : S) (n : ℕ) (k : String)
        → v.WellFormed s
        → (o.sweep_expired now s).0 ≡ ok n
        → v.tx_at (o.sweep_expired now s).1 k ≡ keep_if (live_tx now) (v.tx_at s k)
    pub sweep_codes :
        (now : ℤ) (s : S) (n : ℕ) (k : String)
        → v.WellFormed s
        → (o.sweep_expired now s).0 ≡ ok n
        → v.code_at (o.sweep_expired now s).1 k ≡ keep_if (live_code now) (v.code_at s k)
