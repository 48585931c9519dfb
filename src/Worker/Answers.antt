-- ===== src/Worker/Answers.antt =====
-- crates/discord-oidc-worker/src/durable.rs: what the answers of the object say of its entries.
use discord_oidc.Prelude.{
  String, ◌≡◌, ◌≢◌, refl, sym, ap, subst, ◌∙◌, inl, inr, true, false, Option, none, some, Result,
  ok, err, arith, eq_iff, eq_refl, ◌==◌, if◌then◌else◌, Bool-cases,
}
use discord_oidc.Prelude.Int.{ℤ}
use discord_oidc.Crates.{Crates}
use discord_oidc.Transaction.{AuthorizationTransaction, is_expired}
use discord_oidc.Code.{
  StoredAuthorizationCode, ExchangeCheck, ConsumeDeny, evaluate_code_exchange, unknown,
}
use discord_oidc.Code
use discord_oidc.Code.Exchange.{
  IsBound, Denied, evaluate_code_exchange_ok_iff, evaluate_code_exchange_err_iff,
}
use discord_oidc.Worker.Storage.{WorkerError, Storage, IsStorage, and_then, and_then_ok}
use discord_oidc.Worker.AuthorizationState.{
  tx_key, code_key, Entry, transaction, code, as_tx, as_code, Response, json_ok, took,
  TakeTransactionReply, missing, active, expired, ConsumeCodeReply, consumed, denied, exchanged,
  take_found, take_transaction, taken_reply, settle, consume_found, consume_code,
}

abbrev tx_entry : Option AuthorizationTransaction → Option Entry
tx_entry none = none
tx_entry (some tx) = some (transaction tx)

abbrev code_entry : Option StoredAuthorizationCode → Option Entry
code_entry none = none
code_entry (some x) = some (code x)

as_tx_sound :
    (g : Result (Option Entry) WorkerError) (o : Option AuthorizationTransaction)
    → as_tx g ≡ ok o
    → g ≡ ok (tx_entry o)
unfolding as_tx
as_tx_sound (ok none) none h = refl
as_tx_sound (ok none) (some tx) h = absurd (ground arith)
as_tx_sound (ok (some (transaction tx))) none h = absurd (ground arith)
as_tx_sound (ok (some (transaction tx))) (some ty) h = ground arith
as_tx_sound (ok (some (code x))) o h = absurd (ground arith)
as_tx_sound (err e) o h = absurd (ground arith)

as_code_sound :
    (g : Result (Option Entry) WorkerError) (o : Option StoredAuthorizationCode)
    → as_code g ≡ ok o
    → g ≡ ok (code_entry o)
unfolding as_code
as_code_sound (ok none) none h = refl
as_code_sound (ok none) (some x) h = absurd (ground arith)
as_code_sound (ok (some (code x))) none h = absurd (ground arith)
as_code_sound (ok (some (code x))) (some y) h = ground arith
as_code_sound (ok (some (transaction tx))) o h = absurd (ground arith)
as_code_sound (err e) o h = absurd (ground arith)

-- A reply to a take, against what was held.
abbrev pub TookEntry : Option Entry → ℤ → TakeTransactionReply → Type 0
TookEntry o now missing = o ≡ none
TookEntry o now (active tx) = (o ≡ some (transaction tx)) × (is_expired tx now ≡ false)
TookEntry o now (expired tx) = (o ≡ some (transaction tx)) × (is_expired tx now ≡ true)

-- Why an exchange is denied, against what was held.
abbrev pub Denial : ⦃c : Crates⦄ → Option Entry → ExchangeCheck → ℤ → ConsumeDeny → Type 0
Denial none check now d = d ≡ unknown
Denial (some (code x)) check now d = Denied x check now d
Denial (some (transaction tx)) check now d = ⊥

module _ ⦃c : Crates⦄ {S : Type 0} (storage : Storage Entry S) (held : S → String → Option Entry)
    (laws : IsStorage storage held) where
  -- Nothing is held under a key any more, and the rest is as it was.
  abbrev pub Cleared : String → S → S → Type 0
  Cleared key s t = (j : String) → held t j ≡ (if key == j then none else held s j)

  taken_reply-TookEntry :
      (tx : AuthorizationTransaction) (now : ℤ)
      → TookEntry (some (transaction tx)) now (taken_reply storage tx now)
  unfolding taken_reply
  taken_reply-TookEntry tx now = elim (Bool-cases (is_expired tx now)) [
    | inl past ↦ rw (past, taken_reply) (refl, past)
    | inr live ↦ rw (live, taken_reply) (refl, live)
  ]

  take_found_ok :
      (key : String) (now : ℤ) (o : Option AuthorizationTransaction) (s : S)
      (reply : TakeTransactionReply)
      → held s key ≡ tx_entry o
      → (take_found storage key now o s).0 ≡ ok reply
      → TookEntry (held s key) now reply × Cleared key s (take_found storage key now o s).1
  unfolding take_found
  take_found_ok key now none s reply here e =
      let same : missing ≡ reply = ground arith in
      (rw (← same) here, λ j. ground (arith, eq_iff key j))
  take_found_ok key now (some tx) s reply here e =
      let (b, gone, later, state) =
        and_then_ok (storage.delete key s) (λ b t. (ok (taken_reply storage tx now), t)) reply e in
      let same : taken_reply storage tx now ≡ reply = ground arith in
      (
        rw here (rw (← same) (taken_reply-TookEntry tx now)),
        λ j. ap (λ t. held t j) state ∙ laws.delete_ok key j s b gone,
      )

  -- A take that is answered hands over what was held, and leaves nothing.
  pub take_ok :
      (state : String) (now : ℤ) (s : S) (r : Response)
      → (take_transaction storage state now s).0 ≡ ok r
      → (reply : TakeTransactionReply) × (r ≡ json_ok (took reply))
        × TookEntry (held s (tx_key state)) now reply
        × Cleared (tx_key state) s (take_transaction storage state now s).1
  unfolding take_transaction
  take_ok state now s r e =
      let key = tx_key state in
      let (o, read, e₁, state₁) =
        and_then_ok (as_tx (storage.get key s), s)
          (λ found t.
            and_then (take_found storage key now found t)
              (λ reply t'. (ok (json_ok (took reply)), t')))
          r e in
      let (reply, found, e₂, state₂) =
        and_then_ok (take_found storage key now o s) (λ reply t'. (ok (json_ok (took reply)), t')) r
          e₁ in
      let here = laws.get_ok key s (tx_entry o) (as_tx_sound _ o read) in
      let (entry, cleared) = take_found_ok key now o s reply (sym here) found in
      (reply, ground arith, entry, λ j. ap (λ t. held t j) (state₁ ∙ state₂) ∙ cleared j)

  -- A reply to an exchange, against what was held before and the state after.
  abbrev pub Exchanged : String → ExchangeCheck → ℤ → S → S → ConsumeCodeReply → Type 0
  Exchanged key check now s t (consumed x) =
      (held s key ≡ some (code x)) × IsBound x check now × (held t key ≡ none)
  Exchanged key check now s t (denied d) =
      Denial (held s key) check now d
      × (d ≢ Code.expired → t ≡ s)
      × (d ≡ Code.expired → Cleared key s t)

  settle_ok :
      (key : String) (check : ExchangeCheck) (now : ℤ) (x : StoredAuthorizationCode) (s : S)
      (v : Result (Unit {0}) ConsumeDeny) (reply : ConsumeCodeReply)
      → held s key ≡ some (code x)
      → (evaluate_code_exchange x check now ≡ v)
      → (settle storage key x v s).0 ≡ ok reply
      → Exchanged key check now s (settle storage key x v s).1 reply
  unfolding settle
  settle_ok key check now x s (ok u) reply here v e =
      let (b, gone, later, state) =
        and_then_ok (storage.delete key s) (λ b t. (ok (consumed x), t)) reply e in
      let same : consumed x ≡ reply = ground arith in
      rw (← same) (
        here,
        (evaluate_code_exchange_ok_iff x check now).0 v,
        ap (λ t. held t key) state ∙ laws.delete_ok key key s b gone ∙ ground (arith, eq_refl key),
      )
  settle_ok key check now x s (err Code.expired) reply here v e =
      let (b, gone, later, state) =
        and_then_ok (storage.delete key s) (λ b t. (ok (denied Code.expired), t)) reply e in
      let same : denied Code.expired ≡ reply = ground arith in
      rw (← same) (
        rw here ((evaluate_code_exchange_err_iff x check now Code.expired).0 v),
        λ other. absurd (other refl),
        λ past j. ap (λ t. held t j) state ∙ laws.delete_ok key j s b gone,
      )
  settle_ok key check now x s (err d) reply here v e =
      let same : denied d ≡ reply = ground arith in
      rw (← same) (
        rw here ((evaluate_code_exchange_err_iff x check now d).0 v),
        λ other. refl,
        λ past. absurd (ground (arith, past)),
      )

  consume_found_ok :
      (key : String) (check : ExchangeCheck) (now : ℤ) (o : Option StoredAuthorizationCode) (s : S)
      (reply : ConsumeCodeReply)
      → held s key ≡ code_entry o
      → (consume_found storage key check now o s).0 ≡ ok reply
      → Exchanged key check now s (consume_found storage key check now o s).1 reply
  unfolding consume_found
  consume_found_ok key check now none s reply here e =
      let same : denied unknown ≡ reply = ground arith in
      rw (← same) (rw here refl, λ other. refl, λ past. absurd (ground (arith, past)))
  consume_found_ok key check now (some x) s reply here e =
      settle_ok key check now x s (evaluate_code_exchange x check now) reply here refl e

  -- An exchange that is answered hands over a code that was held, fits the check and is gone; or
  -- denies it by the first binding that fails, and then changes nothing unless the code was
  -- expired, which removes it.
  pub consume_ok :
      (h : String) (check : ExchangeCheck) (now : ℤ) (s : S) (r : Response)
      → (consume_code storage h check now s).0 ≡ ok r
      → (reply : ConsumeCodeReply) × (r ≡ json_ok (exchanged reply))
        × Exchanged (code_key h) check now s (consume_code storage h check now s).1 reply
  unfolding consume_code
  consume_ok h check now s r e =
      let key = code_key h in
      let (o, read, e₁, state₁) =
        and_then_ok (as_code (storage.get key s), s)
          (λ found t.
            and_then (consume_found storage key check now found t)
              (λ reply t'. (ok (json_ok (exchanged reply)), t')))
          r e in
      let (reply, found, e₂, state₂) =
        and_then_ok (consume_found storage key check now o s)
          (λ reply t'. (ok (json_ok (exchanged reply)), t')) r e₁ in
      let here = laws.get_ok key s (code_entry o) (as_code_sound _ o read) in
      let answered = consume_found_ok key check now o s reply (sym here) found in
      (
        reply,
        ground arith,
        subst (λ t. Exchanged key check now s t reply) (sym (state₁ ∙ state₂)) answered,
      )
