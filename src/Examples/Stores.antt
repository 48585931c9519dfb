-- ===== src/Examples/Stores.antt =====
-- The stores, the codes and PKCE.
use discord_oidc.Prelude.{err, ◌≡◌, ◌≢◌, ◌↔◌, refl, true, [], ◌∷◌, ok}
use discord_oidc.Prelude.Int.{pos}
use discord_oidc.Prelude.Text.{as_bytes}
use discord_oidc.Prelude.Dict
use discord_oidc.Transaction.{is_expired}
use discord_oidc.Crates.Compare.{ct_eq_text}
use discord_oidc.Util.{sha256_b64url}
use discord_oidc.Pkce.{is_valid_code_verifier, is_valid_code_challenge, verify_s256}
use discord_oidc.Pkce.Verify.{verify_s256_iff}
use discord_oidc.Code.{evaluate_code_exchange, pkce_mismatch}
use discord_oidc.Code.Exchange.{
  IsBound, evaluate_code_exchange_ok_iff, Denied, evaluate_code_exchange_err_iff,
}
use discord_oidc.Store.{missing, active}
use discord_oidc.Store.Contract.{IsStore}
use discord_oidc.Store.SingleUse.{done, consume_once, take_once}
use discord_oidc.Store.Memory.{
  InMemoryStore, take_transaction, consume_authorization_code, sweep_expired, memory_store,
}
use discord_oidc.Store.Memory.Laws.{memory_view, memory-IsStore}
use discord_oidc.Store.Memory.Sweep.{Swept, sweep_expired-Swept}
use discord_oidc.Examples.Sample.{sample_crates}
use discord_oidc.Examples.Data.{verifier, challenge, transaction, stored_code, exchange_check}

abbrev pub held : InMemoryStore
held = record { transactions = ("up", transaction) ∷ []; codes = ("h", stored_code) ∷ [] }

abbrev after_consume : InMemoryStore
after_consume = (consume_authorization_code "h" exchange_check (pos 1010) held).1

held-WellFormed : memory_view.WellFormed held
unfolding memory_view
held-WellFormed = ((tt, tt), (tt, tt))

consumed : (consume_authorization_code "h" exchange_check (pos 1010) held).0 ≡ ok (ok stored_code)
unfolding consume_authorization_code evaluate_code_exchange verify_s256 is_valid_code_verifier
    is_valid_code_challenge ct_eq_text sha256_b64url sample_crates as_bytes Dict.get
consumed = refl

taken : (take_transaction "up" (pos 1010) held).0 ≡ ok (active transaction)
unfolding take_transaction is_expired Dict.get
taken = refl

consume_once_example :
    (consume_authorization_code "h" exchange_check (pos 1011) after_consume).0 ≢ ok (ok stored_code)
unfolding memory_store
consume_once_example =
    consume_once memory_store memory_view memory-IsStore "h" exchange_check exchange_check
      (pos 1010) (pos 1011) held after_consume stored_code stored_code held-WellFormed consumed done

again : (take_transaction "up" (pos 1011) (take_transaction "up" (pos 1010) held).1).0 ≡ ok missing
unfolding take_transaction Dict.get Dict.remove
again = refl

take_once_example : missing ≡ missing
unfolding memory_store
take_once_example =
    take_once memory_store memory_view memory-IsStore "up" (pos 1010) (pos 1011) held
      (take_transaction "up" (pos 1010) held).1 (active transaction) missing held-WellFormed taken
      done again

memory-IsStore_example : IsStore memory_store memory_view
memory-IsStore_example = memory-IsStore

sweep_expired-Swept_example :
    (n : _) × (((sweep_expired (pos 1060) held).0 ≡ ok n)
      × Swept (pos 1060) held (sweep_expired (pos 1060) held).1 n)
sweep_expired-Swept_example = sweep_expired-Swept (pos 1060) held (tt, tt) (tt, tt)

evaluate_code_exchange_ok_iff_example :
    (evaluate_code_exchange stored_code exchange_check (pos 1010) ≡ ok tt)
    ↔ IsBound stored_code exchange_check (pos 1010)
evaluate_code_exchange_ok_iff_example =
    evaluate_code_exchange_ok_iff stored_code exchange_check (pos 1010)

verify_s256_iff_example :
    (verify_s256 verifier challenge ≡ true)
    ↔ ((is_valid_code_verifier verifier ≡ true) × (sha256_b64url (as_bytes verifier) ≡ challenge))
verify_s256_iff_example = verify_s256_iff verifier challenge

evaluate_code_exchange_err_iff_example :
    (evaluate_code_exchange stored_code exchange_check (pos 1010) ≡ err pkce_mismatch)
    ↔ Denied stored_code exchange_check (pos 1010) pkce_mismatch
evaluate_code_exchange_err_iff_example =
    evaluate_code_exchange_err_iff stored_code exchange_check (pos 1010) pkce_mismatch
