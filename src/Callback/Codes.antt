-- ===== src/Callback/Codes.antt =====
-- Which codes the callback leaves in the store, and what becomes of the transaction.
use discord_oidc.Prelude.{
  String, len, ◌≤◌, ◌≡◌, ◌∙◌, refl, sym, ap, subst, ◌⊎◌, inl, inr, false, ◌∷◌, none, some, Result,
  ok, err, ltb, arith, eq_refl,
}
use discord_oidc.Prelude.Int.{ℤ, pos, add_i64}
use discord_oidc.Prelude.Text.{as_bytes}
use discord_oidc.Crates.{Crates}
use discord_oidc.Config.{Config}
use discord_oidc.Discord.{DiscordApi, DiscordUser}
use discord_oidc.Resolver.{ClientResolver}
use discord_oidc.Response.{redirect}
use discord_oidc.Store.{AuthorizationStore, StoreError, TakeTransaction, missing, active, expired}
use discord_oidc.Store.Contract.{View, IsStore}
use discord_oidc.Transaction.{AuthorizationTransaction, is_expired}
use discord_oidc.Code.{StoredAuthorizationCode, issue_code}
use discord_oidc.Util.{Entropy, random_token, sha256_b64url}
use discord_oidc.Authorize.{redirect_with_params, optional_pair}
use discord_oidc.Callback.{
  CallbackQuery, after_put, after_member, after_user, after_exchange, after_registered,
  after_client, after_take, after_read, handle_callback,
}
use discord_oidc.Callback.Issue.{
  query_of, Grants, issued_for, StoreEffect, after_client-Effect, nothing, taken, granted,
  handle_callback-StoreEffect,
}

-- A stored code carries the binding of a transaction and the id of a user, for a minute.
pub record Binds (y : StoredAuthorizationCode) (tx : AuthorizationTransaction) (user : DiscordUser)
    (now : ℤ) : Type 0 where
  pub client : y.client_id ≡ tx.oidc_client_id
  pub uri : y.redirect_uri ≡ tx.redirect_uri
  pub subject : y.subject ≡ user.id
  pub scope : y.scope ≡ tx.requested_scope
  pub nonce : y.nonce ≡ tx.nonce
  pub challenge : y.code_challenge ≡ tx.code_challenge
  pub created : y.created_at ≡ now
  pub lifetime : y.expires_at ≡ add_i64 now (pos 60)

module _ ⦃c : Crates⦄ {S : Type 0} (cfg : Config) (store : AuthorizationStore S)
    (resolver : ClientResolver) (discord : DiscordApi) (now : ℤ) (view : View S)
    (laws : IsStore store view) where
  -- What a code that the callback put rests on. The code itself is the next token of the entropy.
  pub record IsIssued (query : String) (s : S) (e : Entropy) (k : String)
      (y : StoredAuthorizationCode) : Type 0 where
    pub state : String
    pub tx : AuthorizationTransaction
    pub user : DiscordUser
    pub given : (query_of cfg store resolver discord now query).state ≡ some state
    pub short : len state ≤ 256
    pub held : view.tx_at s state ≡ some tx
    pub live : is_expired tx now ≡ false
    pub grants :
        Grants cfg store resolver discord now
          (query_of cfg store resolver discord now query)
          tx
          user
    pub bound : Binds y tx user now
    pub hashed : y.code_hash ≡ sha256_b64url (as_bytes (random_token e).0)
    pub key : y.code_hash ≡ k

  issued-Binds :
      (tx : AuthorizationTransaction) (user : DiscordUser) (e : Entropy)
      → Binds (issued_for cfg store resolver discord now tx user e).stored tx user now
  unfolding issue_code
  issued-Binds tx user e = record {
    client = refl;
    uri = refl;
    subject = refl;
    scope = refl;
    nonce = refl;
    challenge = refl;
    created = refl;
    lifetime = refl;
  }

  issued_hash :
      (tx : AuthorizationTransaction) (user : DiscordUser) (e : Entropy)
      → (issued_for cfg store resolver discord now tx user e).stored.code_hash
        ≡ sha256_b64url (as_bytes (random_token e).0)
  unfolding issue_code
  issued_hash tx user e = refl

  effect-IsIssued :
      (query : String) (s : S) (e : Entropy) (k : String) (y : StoredAuthorizationCode) (t : S)
      → StoreEffect cfg store resolver discord now
          (query_of cfg store resolver discord now query)
          s
          e
          t
      → view.code_at t k ≡ some y
      → (view.code_at s k ≡ some y) ⊎ IsIssued query s e k y
  effect-IsIssued query s e k y t nothing there = inl there
  effect-IsIssued query s e k y t (taken state given short) there =
      inl (rw laws.take_transaction_codes at there)
  effect-IsIssued query s e k y t (granted state tx user given short took grants) there =
      elim (laws.put_code_only (issued_for cfg store resolver discord now tx user e).stored y
        (store.take_transaction state now s).1 k there) [
          | inl old ↦ inl (rw laws.take_transaction_codes at old)
          | inr (key, same) ↦
              let (held, live) = laws.take_transaction_ok state now s (active tx) took in
              inr (record {
                state = state;
                tx = tx;
                user = user;
                given = given;
                short = short;
                held = held;
                live = live;
                grants = grants;
                bound = subst (λ z. Binds z tx user now) same (issued-Binds tx user e);
                hashed =
                    ap (λ (z : StoredAuthorizationCode). z.code_hash) (sym same)
                    ∙ issued_hash tx user e;
                key = cc (key, same);
              })
        ]

  -- A code that the store holds after the callback was there before, or was issued by it: then the
  -- query's first `state` named a stored live transaction, its client still resolved and still
  -- registers the redirect URI, Discord reported no error, exchanged the code, named a user with a
  -- numeric id and confirmed the membership of the required guild; the record carries the
  -- transaction's client, redirect URI, scope, nonce and challenge and the user's id as its subject
  -- for sixty seconds, under the hash of the fresh token that is the code.
  pub handle_callback-IsIssued :
      (query : String) (s : S) (e : Entropy) (k : String) (y : StoredAuthorizationCode)
      → view.code_at (handle_callback cfg store resolver discord now query s e).1 k ≡ some y
      → (view.code_at s k ≡ some y) ⊎ IsIssued query s e k y
  handle_callback-IsIssued query s e k y there =
      effect-IsIssued query s e k y _
        (handle_callback-StoreEffect cfg store resolver discord now query s e) there

  after_take_txs :
      (q : CallbackQuery) (e : Entropy) (p : Result TakeTransaction StoreError × S) (k : String)
      → view.tx_at (after_take cfg store resolver discord now q e p).1 k ≡ view.tx_at p.1 k
  unfolding after_take
  after_take_txs q e (ok (active tx), t) k =
      elim (after_client-Effect cfg store resolver discord now q tx
        (resolver.find_client tx.oidc_client_id) t e refl) [
          | inl left ↦ ap (λ u. view.tx_at u k) left
          | inr (user, grants, put) ↦ rw put (laws.put_code_txs _ t k)
        ]
  after_take_txs q e (ok (expired tx), t) k = refl
  after_take_txs q e (ok missing, t) k = refl
  after_take_txs q e (err x, t) k = refl

  -- A state that the callback accepted is spent on every branch: if the take was answered, no
  -- transaction is left under it, whether the answer is a code, an error or a page.
  pub handle_callback_spends :
      (query state : String) (s : S) (e : Entropy) (r : TakeTransaction)
      → (query_of cfg store resolver discord now query).state ≡ some state
      → len state ≤ 256
      → (store.take_transaction state now s).0 ≡ ok r
      → view.tx_at (handle_callback cfg store resolver discord now query s e).1 state ≡ none
  unfolding handle_callback after_read
  handle_callback_spends query state s e r given short took =
      let fits : ltb 256 (len state) ≡ false = ground arith in
      let removed = laws.take_transaction_removes state now s r state took in
      rw (given, fits, after_take_txs, removed, eq_refl) refl

  -- With every condition met and a store that does not fail, the browser is sent to the
  -- transaction's redirect URI with a fresh code and the client's state, and the store holds that
  -- code's record under the hash of the code.
  pub handle_callback_completes :
      (query state : String) (s : S) (e : Entropy) (tx : AuthorizationTransaction)
      (user : DiscordUser)
      → (query_of cfg store resolver discord now query).state ≡ some state
      → len state ≤ 256
      → (store.take_transaction state now s).0 ≡ ok (active tx)
      → Grants cfg store resolver discord now
          (query_of cfg store resolver discord now query)
          tx
          user
      → (store.put_authorization_code
          (issued_for cfg store resolver discord now tx user e).stored
          (store.take_transaction state now s).1).0
        ≡ ok tt
      → let issued = issued_for cfg store resolver discord now tx user e in
        ((handle_callback cfg store resolver discord now query s e).0
          ≡ redirect (
              redirect_with_params tx.redirect_uri
                (("code", issued.plaintext) ∷ optional_pair "state" tx.rp_state)))
        × (view.code_at
              (handle_callback cfg store resolver discord now query s e).1
              issued.stored.code_hash
            ≡ some issued.stored)
  unfolding handle_callback after_read after_take after_client after_registered after_exchange
      after_user after_member after_put issue_code
  handle_callback_completes query state s e tx user given short took g put =
      let fits : ltb 256 (len state) ≡ false = ground arith in
      rw
        (
          given, fits, took, g.resolves, g.registered, g.no_error, g.given, g.exchanged, g.fetched,
          g.subject, g.joined, put,
        )
        (
          refl,
          laws.put_code_ok (issued_for cfg store resolver discord now tx user e).stored
                (store.take_transaction state now s).1 _ put
              ∙ rw eq_refl refl,
        )
