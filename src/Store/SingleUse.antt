-- ===== src/Store/SingleUse.antt =====
-- Sequences of calls on a store (store.rs), and the use of one code or upstream state in them.
use mathlib.Core.Path.{subst}
use discord_oidc.Prelude.{String, ◌≡◌, ◌≢◌, refl, ◌⊎◌, inl, inr, Option, none, some, ok, eq_refl}
use discord_oidc.Prelude.Int.{ℤ}
use discord_oidc.Crates.{Crates}
use discord_oidc.Transaction.{AuthorizationTransaction}
use discord_oidc.Code.{StoredAuthorizationCode, ExchangeCheck}
use discord_oidc.Store.{AuthorizationStore, TakeTransaction, missing, active, expired}
use discord_oidc.Store.Contract.{View, IsStore, Took}

module _ ⦃c : Crates⦄ {S : Type 0} (o : AuthorizationStore S) (v : View S) where
  -- One call on the store by any request; codes and transactions are put only under keys that
  -- `code_key` and `tx_key` allow.
  pub data Call (tx_key code_key : String → Type 0) : S → S → Type 0 where
    put_tx :
        (tx : AuthorizationTransaction) (s : S)
        → tx_key tx.discord_oauth_state
        → Call tx_key code_key s (o.put_transaction tx s).1
    take_tx :
        (key : String) (now : ℤ) (s : S) → Call tx_key code_key s (o.take_transaction key now s).1
    put_code :
        (x : StoredAuthorizationCode) (s : S)
        → code_key x.code_hash
        → Call tx_key code_key s (o.put_authorization_code x s).1
    consume :
        (h : String) (check : ExchangeCheck) (now : ℤ) (s : S)
        → Call tx_key code_key s (o.consume_authorization_code h check now s).1
    sweep : (now : ℤ) (s : S) → Call tx_key code_key s (o.sweep_expired now s).1

  -- Any number of calls.
  pub data Calls (tx_key code_key : String → Type 0) (s : S) : S → Type 0 where
    done : Calls tx_key code_key s s
    and_call :
        {t u : S} → Calls tx_key code_key s t → Call tx_key code_key t u → Calls tx_key code_key s u

-- Every key is allowed; every key but one is allowed.
abbrev pub AnyKey : String → Type 0
AnyKey k = Unit

abbrev pub OtherThan : String → String → Type 0
OtherThan h k = k ≢ h

none_of_no_some {ℓ} : {A : Type ℓ} (x : Option A) → ((a : A) → x ≡ some a → ⊥) → x ≡ none
none_of_no_some none h = refl
none_of_no_some (some a) h = absurd (h a refl)

Took-nothing :
    {held : Option AuthorizationTransaction} (r : TakeTransaction) (now : ℤ)
    → held ≡ none
    → Took held now r
    → r ≡ missing
Took-nothing missing now e h = refl
Took-nothing (active tx) now e (h, _) = cc
Took-nothing (expired tx) now e (h, _) = cc

module _ ⦃c : Crates⦄ {S : Type 0} (o : AuthorizationStore S) (v : View S)
    (laws : IsStore o v) where
  -- What a call shows under a key was there before, or was put there.
  code_after :
      {p q : String → Type 0} {s t : S} (k : String) (y : StoredAuthorizationCode)
      → Call o v p q s t
      → v.WellFormed s
      → v.code_at t k ≡ some y
      → (v.code_at s k ≡ some y) ⊎ q k
  code_after k y (put_tx tx s a) w e = inl (rw laws.put_transaction_codes at e)
  code_after k y (take_tx key now s) w e = inl (rw laws.take_transaction_codes at e)
  code_after {q} k y (put_code x s a) w e = elim (laws.put_code_only x y s k e) [
    | inl old ↦ inl old
    | inr (same, _) ↦ inr (subst q same a)
  ]
  code_after k y (consume h check now s) w e = inl (laws.consume_only h check now s k y e)
  code_after k y (sweep now s) w e = inl (laws.sweep_only now s k y w e)

  tx_after :
      {p q : String → Type 0} {s t : S} (k : String) (y : AuthorizationTransaction)
      → Call o v p q s t
      → v.WellFormed s
      → v.tx_at t k ≡ some y
      → (v.tx_at s k ≡ some y) ⊎ p k
  tx_after {p} k y (put_tx tx s a) w e = elim (laws.put_transaction_only tx y s k e) [
    | inl old ↦ inl old
    | inr (same, _) ↦ inr (subst p same a)
  ]
  tx_after k y (take_tx key now s) w e = inl (laws.take_transaction_only key now s k y e)
  tx_after k y (put_code x s a) w e = inl (rw laws.put_code_txs at e)
  tx_after k y (consume h check now s) w e = inl (rw laws.consume_txs at e)
  tx_after k y (sweep now s) w e = inl (laws.sweep_txs_only now s k y w e)

  Call-WellFormed :
      {p q : String → Type 0} {s t : S} → Call o v p q s t → v.WellFormed s → v.WellFormed t
  Call-WellFormed (put_tx tx s a) w = laws.put_transaction_wf tx s w
  Call-WellFormed (take_tx key now s) w = laws.take_transaction_wf key now s w
  Call-WellFormed (put_code x s a) w = laws.put_code_wf x s w
  Call-WellFormed (consume h check now s) w = laws.consume_wf h check now s w
  Call-WellFormed (sweep now s) w = laws.sweep_wf now s w

  -- A code that is gone stays gone, and so does a transaction.
  pub Calls-code_gone :
      {p : String → Type 0} {h : String} {s t : S}
      → Calls o v p (OtherThan h) s t
      → v.WellFormed s
      → v.code_at s h ≡ none
      → v.WellFormed t × (v.code_at t h ≡ none)
  Calls-code_gone done w e = (w, e)
  Calls-code_gone {h} (and_call {t} {u} before last) w e =
      let (w', e') = Calls-code_gone before w e in
      (
        Call-WellFormed last w',
        none_of_no_some (v.code_at u h) λ y there. elim (code_after h y last w' there) [
          | inl old ↦ cc (e', old)
          | inr other ↦ absurd (other refl)
        ],
      )

  Calls-tx_gone :
      {q : String → Type 0} {k : String} {s t : S}
      → Calls o v (OtherThan k) q s t
      → v.WellFormed s
      → v.tx_at s k ≡ none
      → v.WellFormed t × (v.tx_at t k ≡ none)
  Calls-tx_gone done w e = (w, e)
  Calls-tx_gone {k} (and_call {t} {u} before last) w e =
      let (w', e') = Calls-tx_gone before w e in
      (
        Call-WellFormed last w',
        none_of_no_some (v.tx_at u k) λ y there. elim (tx_after k y last w' there) [
          | inl old ↦ cc (e', old)
          | inr other ↦ absurd (other refl)
        ],
      )

  -- Once a code has been consumed, no later consumption under its hash succeeds, whatever calls of
  -- other requests come between, as long as none of them puts a code under the same hash.
  pub consume_once :
      (h : String) (check later_check : ExchangeCheck) (now later : ℤ) (s t : S)
      (x y : StoredAuthorizationCode)
      → v.WellFormed s
      → (o.consume_authorization_code h check now s).0 ≡ ok (ok x)
      → Calls o v AnyKey (OtherThan h) (o.consume_authorization_code h check now s).1 t
      → (o.consume_authorization_code h later_check later t).0 ≢ ok (ok y)
  consume_once h check later_check now later s t x y w e between e' =
      let (held, bound, gone) = laws.consume_ok h check now s x e in
      let (w', still) = Calls-code_gone between (laws.consume_wf h check now s w) gone in
      let (held', bound', gone') = laws.consume_ok h later_check later t y e' in cc (still, held')

  -- Once a transaction has been taken, no later take of the same upstream state hands one over,
  -- whatever calls come between, as long as none of them puts a transaction under that state.
  pub take_once :
      (key : String) (now later : ℤ) (s t : S) (r r' : TakeTransaction)
      → v.WellFormed s
      → (o.take_transaction key now s).0 ≡ ok r
      → Calls o v (OtherThan key) AnyKey (o.take_transaction key now s).1 t
      → (o.take_transaction key later t).0 ≡ ok r'
      → r' ≡ missing
  take_once key now later s t r r' w e between e' =
      let removed = laws.take_transaction_removes key now s r key e in
      let (w', still) =
        Calls-tx_gone between (laws.take_transaction_wf key now s w) (rw eq_refl at removed) in
      Took-nothing r' later still (laws.take_transaction_ok key later t r' e')
