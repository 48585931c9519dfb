-- ===== src/Callback/Issue.antt =====
-- When the callback issues a code.
use discord_oidc.Prelude.{
  String, len, ◌≤◌, ◌≡◌, refl, ap, ◌⊎◌, inl, inr, true, Option, none, some, Result, ok, err,
  contains, ltb, arith, Bool-cases,
}
use discord_oidc.Prelude.Text.{as_bytes}
use discord_oidc.Prelude.Int.{ℤ}
use discord_oidc.Crates.{Crates}
use discord_oidc.Client.{ClientConfig}
use discord_oidc.Config.{Config, discord_callback_url}
use discord_oidc.Discord.{
  DiscordApi, DiscordTokenResponse, DiscordUser, DiscordMember, DiscordError,
}
use discord_oidc.Registry.{RegistryStoreError}
use discord_oidc.Resolver.{ClientResolver}
use discord_oidc.Store.{AuthorizationStore, StoreError, TakeTransaction, missing, active, expired}
use discord_oidc.Transaction.{AuthorizationTransaction}
use discord_oidc.Code.{IssuedCode, issue_code}
use discord_oidc.Util.{Entropy}
use discord_oidc.Callback.{
  CallbackQuery, no_values, read_pairs, is_subject, after_put, after_member, after_user,
  after_exchange, after_registered, after_client, after_take, after_read, handle_callback,
}

module _ ⦃c : Crates⦄ {S : Type 0} (cfg : Config) (store : AuthorizationStore S)
    (resolver : ClientResolver) (discord : DiscordApi) (now : ℤ) where
  -- The values that the callback reads of its query.
  abbrev pub query_of : String → CallbackQuery
  query_of query = read_pairs (c.form_parse (as_bytes query)) no_values

  -- Everything that must hold of a live transaction for a code to be issued.
  pub record Grants (q : CallbackQuery) (tx : AuthorizationTransaction) (user : DiscordUser)
      : Type 0 where
    pub client : ClientConfig
    pub resolves : resolver.find_client tx.oidc_client_id ≡ ok (some client)
    pub registered : contains client.redirect_uris tx.redirect_uri ≡ true
    pub no_error : q.error ≡ none
    pub code : String
    pub given : q.code ≡ some code
    pub token : DiscordTokenResponse
    pub exchanged : discord.exchange_code code (discord_callback_url cfg) ≡ ok token
    pub fetched : discord.fetch_user token.access_token ≡ ok user
    pub subject : is_subject user.id ≡ true
    pub member : DiscordMember
    pub joined :
        discord.fetch_guild_member token.access_token cfg.required_guild_id ≡ ok (some member)

  -- The code for a user.
  abbrev pub issued_for : AuthorizationTransaction → DiscordUser → Entropy → IssuedCode
  issued_for tx user e = (issue_code tx user.id e now).0

  -- A stage leaves the store alone, or puts a code with every condition met.
  abbrev pub Effect : (DiscordUser → Type 0) → AuthorizationTransaction → S → Entropy → S → Type 0
  Effect Ok tx s e t =
      (t ≡ s)
      ⊎ ((user : DiscordUser) × Ok user
          × (t ≡ (store.put_authorization_code (issued_for tx user e).stored s).1))

  after_put-State :
      (tx : AuthorizationTransaction) (issued : IssuedCode) (e : Entropy)
      (r : Result (Unit {0}) StoreError × S)
      → (after_put cfg store resolver discord now tx issued e r).1 ≡ r.1
  unfolding after_put
  after_put-State tx issued e (ok u, s) = refl
  after_put-State tx issued e (err f, s) = refl

  after_member-Effect :
      (Ok : DiscordUser → Type 0) (tx : AuthorizationTransaction) (user : DiscordUser)
      (r : Result (Option DiscordMember) DiscordError) (s : S) (e : Entropy)
      → ((m : DiscordMember) → r ≡ ok (some m) → Ok user)
      → Effect Ok tx s e (after_member cfg store resolver discord now tx user r s e).1
  unfolding after_member
  after_member-Effect Ok tx user (ok (some m)) s e h = inr (
    user,
    h m refl,
    after_put-State tx (issued_for tx user e) (issue_code tx user.id e now).1
        (store.put_authorization_code (issued_for tx user e).stored s),
  )
  after_member-Effect Ok tx user (ok none) s e h = inl refl
  after_member-Effect Ok tx user (err x) s e h = inl refl

  after_user-Effect :
      (Ok : DiscordUser → Type 0) (tx : AuthorizationTransaction) (token : DiscordTokenResponse)
      (r : Result DiscordUser DiscordError) (s : S) (e : Entropy)
      → ((user : DiscordUser) (m : DiscordMember)
          → r ≡ ok user
          → is_subject user.id ≡ true
          → discord.fetch_guild_member token.access_token cfg.required_guild_id ≡ ok (some m)
          → Ok user)
      → Effect Ok tx s e (after_user cfg store resolver discord now tx token r s e).1
  unfolding after_user
  after_user-Effect Ok tx token (err x) s e h = inl refl
  after_user-Effect Ok tx token (ok user) s e h = elim (Bool-cases (is_subject user.id)) [
    | inr bad ↦ rw (bad, after_user) (inl refl)
    | inl good ↦
        rw (good, after_user)
          (after_member-Effect Ok tx user
            (discord.fetch_guild_member token.access_token cfg.required_guild_id) s e
            (λ m joined. h user m refl good joined))
  ]

  after_exchange-Effect :
      (Ok : DiscordUser → Type 0) (tx : AuthorizationTransaction)
      (r : Result DiscordTokenResponse DiscordError) (s : S) (e : Entropy)
      → ((token : DiscordTokenResponse) (user : DiscordUser) (m : DiscordMember)
          → r ≡ ok token
          → discord.fetch_user token.access_token ≡ ok user
          → is_subject user.id ≡ true
          → discord.fetch_guild_member token.access_token cfg.required_guild_id ≡ ok (some m)
          → Ok user)
      → Effect Ok tx s e (after_exchange cfg store resolver discord now tx r s e).1
  unfolding after_exchange
  after_exchange-Effect Ok tx (err x) s e h = inl refl
  after_exchange-Effect Ok tx (ok token) s e h =
      after_user-Effect Ok tx token (discord.fetch_user token.access_token) s e
        (λ user m fetched subject joined. h token user m refl fetched subject joined)

  after_registered-Effect :
      (q : CallbackQuery) (tx : AuthorizationTransaction) (client : ClientConfig)
      → resolver.find_client tx.oidc_client_id ≡ ok (some client)
      → contains client.redirect_uris tx.redirect_uri ≡ true
      → (error code : Option String) (s : S) (e : Entropy) → q.error ≡ error
      → q.code ≡ code
      → Effect
          (Grants q tx)
          tx
          s
          e
          (after_registered cfg store resolver discord now tx error code s e).1
  unfolding after_registered
  after_registered-Effect q tx client found there (some x) code s e present given = inl refl
  after_registered-Effect q tx client found there none none s e absent given = inl refl
  after_registered-Effect q tx client found there none (some code) s e absent given =
      after_exchange-Effect (Grants q tx) tx (discord.exchange_code code (discord_callback_url cfg))
        s e
        (λ token user m exchanged fetched subject joined. record {
          client = client;
          resolves = found;
          registered = there;
          no_error = absent;
          code = code;
          given = given;
          token = token;
          exchanged = exchanged;
          fetched = fetched;
          subject = subject;
          member = m;
          joined = joined;
        })

  pub after_client-Effect :
      (q : CallbackQuery) (tx : AuthorizationTransaction)
      (r : Result (Option ClientConfig) RegistryStoreError) (s : S) (e : Entropy)
      → resolver.find_client tx.oidc_client_id ≡ r
      → Effect (Grants q tx) tx s e (after_client cfg store resolver discord now q tx r s e).1
  unfolding after_client
  after_client-Effect q tx (ok none) s e same = inl refl
  after_client-Effect q tx (err x) s e same = inl refl
  after_client-Effect q tx (ok (some client)) s e same =
      elim (Bool-cases (contains client.redirect_uris tx.redirect_uri)) [
        | inr gone ↦ rw (gone, after_client) (inl refl)
        | inl there ↦
            rw (there, after_client)
              (after_registered-Effect q tx client same there q.error q.code s e refl refl)
      ]

  -- What the callback does to the store: nothing; or the given state's transaction is taken; or it
  -- is taken alive and a code is put for it.
  pub data StoreEffect (q : CallbackQuery) (s : S) (e : Entropy) : S → Type 0 where
    nothing : StoreEffect q s e s
    taken :
        (state : String)
        → q.state ≡ some state
        → len state ≤ 256
        → StoreEffect q s e (store.take_transaction state now s).1
    granted :
        (state : String) (tx : AuthorizationTransaction) (user : DiscordUser)
        → q.state ≡ some state
        → len state ≤ 256
        → (store.take_transaction state now s).0 ≡ ok (active tx)
        → Grants q tx user
        → StoreEffect q s e
            (store.put_authorization_code
              (issued_for tx user e).stored
              (store.take_transaction state now s).1).1

  after_take-StoreEffect :
      (q : CallbackQuery) (state : String) (s : S) (e : Entropy)
      → q.state ≡ some state
      → len state ≤ 256
      → (r : Result TakeTransaction StoreError × S) → store.take_transaction state now s ≡ r
      → StoreEffect q s e (after_take cfg store resolver discord now q e r).1
  unfolding after_take
  after_take-StoreEffect q state s e given short (ok (active tx), t) same =
      elim (after_client-Effect q tx (resolver.find_client tx.oidc_client_id) t e refl) [
        | inl left ↦ rw (left, ← ap (λ p. p.1) same) (taken state given short)
        | inr (user, grants, put) ↦
            rw (put, ← ap (λ p. p.1) same)
              (granted state tx user given short (ap (λ p. p.0) same) grants)
      ]
  after_take-StoreEffect q state s e given short (ok (expired tx), t) same =
      rw (← ap (λ p. p.1) same) (taken state given short)
  after_take-StoreEffect q state s e given short (ok missing, t) same =
      rw (← ap (λ p. p.1) same) (taken state given short)
  after_take-StoreEffect q state s e given short (err x, t) same =
      rw (← ap (λ p. p.1) same) (taken state given short)

  after_read-StoreEffect :
      (q : CallbackQuery) (o : Option String) (s : S) (e : Entropy)
      → q.state ≡ o
      → StoreEffect q s e (after_read cfg store resolver discord now q o s e).1
  unfolding after_read
  after_read-StoreEffect q none s e given = nothing
  after_read-StoreEffect q (some state) s e given = elim (Bool-cases (ltb 256 (len state))) [
    | inl large ↦ rw (large, after_read) nothing
    | inr short ↦
        rw (short, after_read)
          (after_take-StoreEffect q state s e given (ground arith)
            (store.take_transaction state now s) refl)
  ]

  -- The callback touches the store in at most two calls: it takes the transaction of the state that
  -- the query gives first, and only for a live one with every condition met it puts the code that
  -- is issued for it.
  pub handle_callback-StoreEffect :
      (query : String) (s : S) (e : Entropy)
      → StoreEffect
          (query_of query)
          s
          e
          (handle_callback cfg store resolver discord now query s e).1
  unfolding handle_callback
  handle_callback-StoreEffect query s e =
      after_read-StoreEffect (query_of query) (query_of query).state s e refl
