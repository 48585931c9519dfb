-- ===== src/Worker/StoreContract.antt =====
-- crates/discord-oidc-worker: the store behind its stub (durable.rs with do_store.rs)
-- against the contract of store.rs.
use discord_oidc.Prelude.{
  String, ◌≡◌, ◌≢◌, ◌⊎◌, refl, sym, ap, subst, ◌∙◌, inl, inr, Option, none, some, Result, ok, err,
  ◌==◌, ℕ, arith,
}
use discord_oidc.Prelude.Int.{ℤ}
use discord_oidc.Crates.{Crates}
use discord_oidc.Transaction.{AuthorizationTransaction}
use discord_oidc.Code.{StoredAuthorizationCode, ExchangeCheck, ConsumeDeny}
use discord_oidc.Code
use discord_oidc.Code.Exchange.{IsBound}
use discord_oidc.Store.{TakeTransaction, StoreError}
use discord_oidc.Prelude.Dict.Order.{keep_if}
use discord_oidc.Store.Contract.{View, Took, IsStore, Replied, live_tx, live_code}
use discord_oidc.Worker.Storage.{WorkerError, Storage, IsStorage, IsStub, and_then_ok}
use discord_oidc.Worker.Sweeping.{live_entry, sweep_held}
use discord_oidc.Worker.AuthorizationState.{
  tx_key, code_key, Entry, transaction, code, Message, take_body, consume_body, Response, took,
  exchanged, TakeTransactionReply, missing, active, expired, ConsumeCodeReply, consumed, denied,
  fetch, take_of_body, consume_of_body, sweep_of_body, sweep_body, sweep, removed, Reply, json_ok,
  entry_expires_at,
}
use discord_oidc.Worker.DoStore.{do_store, post, accept, read_removed, as_take, as_exchange}
use discord_oidc.Worker.Entries.{Wrote-some, Dropped-some}
use discord_oidc.Worker.Answers.{TookEntry, Cleared, Denial, take_ok, Exchanged, consume_ok}
use discord_oidc.Worker.StoreEntries.{
  Delivery-ok, code-injective, code_key-injective, code_key_test, code_of, code_of-some, code_of_if,
  exchanged-injective, read_exchanged_sound, read_taken_sound, took-injective,
  transaction-injective, tx_key-code_key, tx_key-injective, tx_key_test, tx_of, tx_of-some,
  tx_of_if,
}
use discord_oidc.Worker.StoreMessages.{
  consume-message-Dropped, put_code-Wrote, put_code_answer, put_transaction-Wrote,
  put_transaction_answer, sweep-message-Shrunk, take-message-Dropped,
}

module _ ⦃c : Crates⦄ {S : Type 0} (storage : Storage Entry S) (held : S → String → Option Entry)
    (laws : IsStorage storage held) (stub : Message → S → Result Response WorkerError × S)
    (stub_laws : IsStub (fetch storage) stub) where
  Took-of_entry :
      (o : Option Entry) (now : ℤ) (reply : TakeTransactionReply)
      → TookEntry o now reply
      → Took (tx_of o) now (as_take reply)
  unfolding as_take
  Took-of_entry o now missing e = ap tx_of e
  Took-of_entry o now (active tx) (e, live) = (ap tx_of e, live)
  Took-of_entry o now (expired tx) (e, past) = (ap tx_of e, past)

  take_answer :
      (state : String) (now : ℤ) (s : S) (r : TakeTransaction)
      → ((do_store stub).take_transaction state now s).0 ≡ ok r
      → Took (tx_of (held s (tx_key state))) now r
        × Cleared storage held laws
            (tx_key state)
            s
            ((do_store stub).take_transaction state now s).1
  unfolding do_store post fetch take_of_body
  take_answer state now s r e =
      let m : Message = record {
        method = "POST";
        path = "/take-transaction";
        body = take_body state now;
      } in
      let (reply, good, is_r) = read_taken_sound (accept (stub m s).0) r e in
      let (w, answered, given, state') =
        Delivery-ok storage held laws stub stub_laws m s (stub m s) (took reply) (stub_laws m s)
          good in
      let (taken, same, entry, cleared) = take_ok storage held laws state now s w answered in
      let same' : taken ≡ reply =
        took-injective taken reply (sym (ap (λ (x : Response). x.reply) same) ∙ given) in
      (
        subst (λ x. Took (tx_of (held s (tx_key state))) now x) (ap as_take same' ∙ is_r)
            (Took-of_entry (held s (tx_key state)) now taken entry),
        λ j. ap (λ t. held t j) state' ∙ cleared j,
      )

  -- What an exchange shows of the entries.
  abbrev Answered :
      String → ExchangeCheck → ℤ → S → S → Result StoredAuthorizationCode ConsumeDeny → Type 0
  Answered h check now s t (ok x) =
      (held s (code_key h) ≡ some (code x)) × IsBound x check now × (held t (code_key h) ≡ none)
  Answered h check now s t (err d) =
      Denial (held s (code_key h)) check now d
      × (d ≢ Code.expired → t ≡ s)
      × (d ≡ Code.expired → Cleared storage held laws (code_key h) s t)

  Answered_of_reply :
      (h : String) (check : ExchangeCheck) (now : ℤ) (s t : S) (reply : ConsumeCodeReply)
      → Exchanged storage held laws (code_key h) check now s t reply
      → Answered h check now s t (as_exchange reply)
  unfolding as_exchange
  Answered_of_reply h check now s t (consumed x) e = e
  Answered_of_reply h check now s t (denied d) e = e

  consume_answer :
      (h : String) (check : ExchangeCheck) (now : ℤ) (s : S)
      (r : Result StoredAuthorizationCode ConsumeDeny)
      → ((do_store stub).consume_authorization_code h check now s).0 ≡ ok r
      → Answered h check now s ((do_store stub).consume_authorization_code h check now s).1 r
  unfolding do_store post fetch consume_of_body
  consume_answer h check now s r e =
      let m : Message = record {
        method = "POST";
        path = "/consume-code";
        body = consume_body h check now;
      } in
      let (reply, good, is_r) = read_exchanged_sound (accept (stub m s).0) r e in
      let (w, answered, given, state') =
        Delivery-ok storage held laws stub stub_laws m s (stub m s) (exchanged reply)
          (stub_laws m s) good in
      let (found, same, exchange) = consume_ok storage held laws h check now s w answered in
      let same' : found ≡ reply =
        exchanged-injective found reply (sym (ap (λ (x : Response). x.reply) same) ∙ given) in
      subst (λ x. Answered h check now s (stub m s).1 x) (ap as_exchange same' ∙ is_r)
        (Answered_of_reply h check now s (stub m s).1 found (
          subst (λ t. Exchanged storage held laws (code_key h) check now s t found) (sym state')
            exchange))

  put_transaction_some :
      (tx y : AuthorizationTransaction) (s : S) (k : String)
      → tx_of (held ((do_store stub).put_transaction tx s).1 (tx_key k)) ≡ some y
      → (tx_of (held s (tx_key k)) ≡ some y) ⊎ ((tx.discord_oauth_state ≡ k) × (tx ≡ y))
  put_transaction_some tx y s k e =
      elim (Wrote-some storage held laws (tx_key tx.discord_oauth_state) (tx_key k) (transaction tx)
        (transaction y) s ((do_store stub).put_transaction tx s).1
        (put_transaction-Wrote storage held laws stub stub_laws tx s) (tx_of-some _ y e)) [
          | inl before ↦ inl (ap tx_of before)
          | inr (key, written) ↦
              inr
                (tx_key-injective tx.discord_oauth_state k key, transaction-injective tx y written)
        ]

  put_code_some :
      (x y : StoredAuthorizationCode) (s : S) (k : String)
      → code_of (held ((do_store stub).put_authorization_code x s).1 (code_key k)) ≡ some y
      → (code_of (held s (code_key k)) ≡ some y) ⊎ ((x.code_hash ≡ k) × (x ≡ y))
  put_code_some x y s k e =
      elim (Wrote-some storage held laws (code_key x.code_hash) (code_key k) (code x) (code y) s
        ((do_store stub).put_authorization_code x s).1
        (put_code-Wrote storage held laws stub stub_laws x s) (code_of-some _ y e)) [
          | inl before ↦ inl (ap code_of before)
          | inr (key, written) ↦
              inr (code_key-injective x.code_hash k key, code-injective x y written)
        ]

  Replied-Denial :
      (o : Option Entry) (check : ExchangeCheck) (now : ℤ) (d : ConsumeDeny)
      → Denial o check now d
      → Replied (code_of o) check now (err d)
  Replied-Denial none check now d h = h
  Replied-Denial (some (code x)) check now d h = h
  Replied-Denial (some (transaction tx)) check now d h = absurd h

  consume-Replied :
      (h : String) (check : ExchangeCheck) (now : ℤ) (s : S)
      (r : Result StoredAuthorizationCode ConsumeDeny)
      → ((do_store stub).consume_authorization_code h check now s).0 ≡ ok r
      → Replied (code_of (held s (code_key h))) check now r
  consume-Replied h check now s (ok x) e =
      let (there, bound, gone) = consume_answer h check now s (ok x) e in rw there (refl, bound)
  consume-Replied h check now s (err d) e =
      Replied-Denial (held s (code_key h)) check now d (consume_answer h check now s (err d) e).0

  read_removed_sound :
      (a : Result Reply StoreError) (n : ℕ) → read_removed a ≡ ok n → a ≡ ok (removed n)
  unfolding read_removed
  read_removed_sound (ok (removed m)) n e = ground arith
  read_removed_sound (ok reply) n e = absurd (ground arith)
  read_removed_sound (err f) n e = absurd (ground arith)

  sweep_answer :
      (now : ℤ) (s : S) (n : ℕ) (j : String)
      → ((do_store stub).sweep_expired now s).0 ≡ ok n
      → held ((do_store stub).sweep_expired now s).1 j ≡ keep_if (live_entry now) (held s j)
  unfolding do_store post fetch sweep_of_body
  sweep_answer now s n j e =
      let m : Message = record { method = "POST"; path = "/sweep"; body = sweep_body now } in
      let good = read_removed_sound (accept (stub m s).0) n e in
      let (w, answered, given, state') =
        Delivery-ok storage held laws stub stub_laws m s (stub m s) (removed n) (stub_laws m s)
          good in
      let (k, swept, later, state) =
        and_then_ok (sweep storage now s) (λ n t. (ok (json_ok (removed n)), t)) w answered in
      ap (λ t. held t j) (state' ∙ state) ∙ sweep_held storage held laws now s k j swept

  tx_of_keep :
      (now : ℤ) (o : Option Entry)
      → tx_of (keep_if (live_entry now) o) ≡ keep_if (live_tx now) (tx_of o)
  unfolding entry_expires_at
  tx_of_keep now none = refl
  tx_of_keep now (some (transaction tx)) = tx_of_if (live_tx now tx) (some (transaction tx)) none
  tx_of_keep now (some (code x)) = tx_of_if (live_code now x) (some (code x)) none ∙ ground arith

  code_of_keep :
      (now : ℤ) (o : Option Entry)
      → code_of (keep_if (live_entry now) o) ≡ keep_if (live_code now) (code_of o)
  unfolding entry_expires_at
  code_of_keep now none = refl
  code_of_keep now (some (code x)) = code_of_if (live_code now x) (some (code x)) none
  code_of_keep now (some (transaction tx)) =
      code_of_if (live_tx now tx) (some (transaction tx)) none ∙ ground arith

  abbrev pub durable_view : View S
  durable_view = record {
    WellFormed = λ s. Unit;
    tx_at = λ s k. tx_of (held s (tx_key k));
    code_at = λ s k. code_of (held s (code_key k));
  }

  -- The store behind its stub keeps the contract of `AuthorizationStore`, but for the number that a
  -- sweep returns: an answered take or exchange removes what it hands over and an expired code, an
  -- exchange is answered by the bindings of the code that is held, an answered sweep leaves exactly
  -- the records that have not expired, and nothing but a put makes a record appear.
  pub durable-IsStore : IsStore (do_store stub) durable_view
  durable-IsStore = record {
    keeps = record {
      put_transaction_wf = λ tx s w. tt;
      take_transaction_wf = λ key now s w. tt;
      put_code_wf = λ x s w. tt;
      consume_wf = λ h check now s w. tt;
      sweep_wf = λ now s w. tt;
    };
    put_transaction_codes = λ tx s k. ap code_of (
        (put_transaction-Wrote storage held laws stub stub_laws tx s).others (code_key k)
          (tx_key-code_key tx.discord_oauth_state k));
    put_transaction_ok = λ tx s k e.
        ap tx_of (
          put_transaction_answer storage held laws stub stub_laws tx s (tx_key k) e
          ∙ rw (tx_key_test tx.discord_oauth_state k) refl)
        ∙ tx_of_if (tx.discord_oauth_state == k) (some (transaction tx)) (held s (tx_key k));
    put_transaction_only = λ tx y s k e. put_transaction_some tx y s k e;
    take_transaction_only = λ key now s k y e. ap tx_of (
        Dropped-some storage held laws (tx_key key) (tx_key k) (transaction y) s
          ((do_store stub).take_transaction key now s).1
          (take-message-Dropped storage held laws stub stub_laws key now s) (tx_of-some _ y e));
    consume_txs = λ h check now s k. ap tx_of (
        (consume-message-Dropped storage held laws stub stub_laws h check now s).others (tx_key k)
          (λ e. tx_key-code_key k h (sym e)));
    sweep_txs_only = λ now s k y w e. ap tx_of (
        sweep-message-Shrunk storage held laws stub stub_laws now s (tx_key k) (transaction y)
          (tx_of-some _ y e));
    take_transaction_codes = λ key now s k. ap code_of (
        (take-message-Dropped storage held laws stub stub_laws key now s).others (code_key k)
          (tx_key-code_key key k));
    take_transaction_ok = λ key now s r e. (take_answer key now s r e).0;
    take_transaction_removes = λ key now s r k e.
        ap tx_of ((take_answer key now s r e).1 (tx_key k) ∙ rw (tx_key_test key k) refl)
        ∙ tx_of_if (key == k) none (held s (tx_key k));
    put_code_txs = λ x s k. ap tx_of (
        (put_code-Wrote storage held laws stub stub_laws x s).others (tx_key k)
          (λ e. tx_key-code_key k x.code_hash (sym e)));
    put_code_only = λ x y s k e. put_code_some x y s k e;
    put_code_ok = λ x s k e.
        ap code_of (
          put_code_answer storage held laws stub stub_laws x s (code_key k) e
          ∙ rw (code_key_test x.code_hash k) refl)
        ∙ code_of_if (x.code_hash == k) (some (code x)) (held s (code_key k));
    consume_only = λ h check now s k y e. ap code_of (
        Dropped-some storage held laws (code_key h) (code_key k) (code y) s
          ((do_store stub).consume_authorization_code h check now s).1
          (consume-message-Dropped storage held laws stub stub_laws h check now s)
          (code_of-some _ y e));
    consume_ok = λ h check now s x e.
        let (there, bound, gone) = consume_answer h check now s (ok x) e in
        (ap code_of there, bound, ap code_of gone);
    consume_denied = λ h check now s d k e other.
        ap (λ t. code_of (held t (code_key k))) ((consume_answer h check now s (err d) e).1 other);
    sweep_only = λ now s k y w e. ap code_of (
        sweep-message-Shrunk storage held laws stub stub_laws now s (code_key k) (code y)
          (code_of-some _ y e));
    consume_reply = λ h check now s r e. consume-Replied h check now s r e;
    consume_expired = λ h check now s k e.
        ap code_of (
          (consume_answer h check now s (err Code.expired) e).2 refl (code_key k)
          ∙ rw (code_key_test h k) refl)
        ∙ code_of_if (h == k) none (held s (code_key k));
    sweep_txs = λ now s n k w e.
        ap tx_of (sweep_answer now s n (tx_key k) e) ∙ tx_of_keep now (held s (tx_key k));
    sweep_codes = λ now s n k w e.
        ap code_of (sweep_answer now s n (code_key k) e) ∙ code_of_keep now (held s (code_key k));
  }
