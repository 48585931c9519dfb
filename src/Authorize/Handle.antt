-- ===== src/Authorize/Handle.antt =====
-- What `/authorize` stores and answers.
use Prim.Native.String
use discord_oidc.Prelude.{
  Bool, [], ◌∷◌, if◌then◌else◌, String, ◌≡◌, ◌≢◌, refl, some, Result, ok, err, arith, eq_refl,
}
use discord_oidc.Prelude.Int.{ℤ, pos, ◌+ℤ◌, IsTime, add_i64_exact}
use discord_oidc.Crates.{Crates}
use discord_oidc.Config.{Config, discord_callback_url}
use discord_oidc.Discord.{discord_authorize_url}
use discord_oidc.Resolver.{ClientResolver}
use discord_oidc.Response.{CoreResponse, redirect, html}
use discord_oidc.Error.{error_page}
use discord_oidc.Store.{AuthorizationStore, StoreError}
use discord_oidc.Store.Contract.{View, IsStore}
use discord_oidc.Transaction.{AuthorizationTransaction, new_transaction}
use discord_oidc.Util.{Entropy, random_token}
use discord_oidc.Authorize.{
  AuthorizeVerdict, proceed, redirect_error, render_error, ValidatedAuthorize, answer, after_put,
  handle_authorize, validate_authorize_request,
}

-- A transaction carries what was validated, under the second of two fresh tokens, for ten minutes.
pub record Carries ⦃c : Crates⦄ (tx : AuthorizationTransaction) (v : ValidatedAuthorize)
    (e : Entropy) (now : ℤ) : Type 0 where
  pub client : tx.oidc_client_id ≡ v.client_id
  pub uri : tx.redirect_uri ≡ v.redirect_uri
  pub scope : tx.requested_scope ≡ v.scope
  pub state : tx.rp_state ≡ v.rp_state
  pub nonce : tx.nonce ≡ v.nonce
  pub challenge : tx.code_challenge ≡ v.code_challenge
  pub upstream : tx.discord_oauth_state ≡ (random_token (random_token e).1).0
  pub lifetime : tx.expires_at ≡ now +ℤ pos 600

module _ ⦃c : Crates⦄ {S : Type 0} (cfg : Config) (store : AuthorizationStore S) where
  -- The transaction that a validated request makes.
  abbrev pub made : ValidatedAuthorize → Entropy → ℤ → AuthorizationTransaction
  made v e now =
      (new_transaction v.client_id v.redirect_uri v.scope v.rp_state v.nonce v.code_challenge e
        now).0

  made-Carries :
      (v : ValidatedAuthorize) (e : Entropy) (now : ℤ) → IsTime now → Carries (made v e now) v e now
  unfolding new_transaction
  made-Carries v e now time = record {
    client = refl;
    uri = refl;
    scope = refl;
    state = refl;
    nonce = refl;
    challenge = refl;
    upstream = refl;
    lifetime = add_i64_exact now 600 time (omega arith);
  }

  -- Discord's authorize page, asked to come back to the callback with a state.
  abbrev pub discord_page : String → Bool → CoreResponse
  discord_page state consent = redirect (
      c.extend_pairs "https://discord.com/oauth2/authorize" (
        ("client_id", cfg.discord_client_id)
        ∷ ("redirect_uri", String.◌++◌ cfg.issuer "/oauth/discord/callback")
        ∷ ("response_type", "code")
        ∷ ("scope", "identify guilds.members.read")
        ∷ ("state", state)
        ∷ (if consent then ("prompt", "consent") ∷ [] else [])))

  -- The answer to a request that proceeds, by what the store answered to the put: the transaction
  -- is stored, and the browser is sent to Discord with its upstream state; or the store failed,
  -- and a page says so.
  pub data Answered (view : View S) (v : ValidatedAuthorize) (tx : AuthorizationTransaction) (t : S)
      : Result (Unit {0}) StoreError → CoreResponse → Type 0 where
    sent :
        view.tx_at t tx.discord_oauth_state ≡ some tx
        → Answered view v tx t (ok tt) (discord_page tx.discord_oauth_state v.discord_consent)
    failed :
        (f : StoreError)
        → Answered view v tx t
            (err f)
            (html 500 (error_page "server_error" "authorization storage failure"))

  module _ (view : View S) (laws : IsStore store view) where
    put-Answered :
        (v : ValidatedAuthorize) (tx : AuthorizationTransaction) (e : Entropy) (s : S)
        (r : Result (Unit {0}) StoreError × S)
        → store.put_transaction tx s ≡ r
        → Answered view v tx
            (after_put cfg store tx v.discord_consent e r).1
            r.0
            (after_put cfg store tx v.discord_consent e r).0
    unfolding after_put discord_authorize_url discord_callback_url
    put-Answered v tx e s (ok u, t) same = sent (
        ground (
          arith,
          eq_refl tx.discord_oauth_state,
          laws.put_transaction_ok tx s tx.discord_oauth_state,
        ))
    put-Answered v tx e s (err f, t) same = failed f

    -- A validated request makes a transaction that carries it for ten minutes. If the store takes
    -- it, it is held under its upstream state, and the browser is sent to Discord's authorize page
    -- with this provider's client id, callback and scopes and that state; if the store fails, a
    -- page with status 500 says so.
    pub handle_authorize-Answered :
        (query : String) (resolver : ClientResolver) (now : ℤ) (s : S) (e : Entropy)
        (v : ValidatedAuthorize)
        → IsTime now
        → validate_authorize_request query resolver ≡ proceed v
        → Carries (made v e now) v e now
          × Answered view v
              (made v e now)
              (handle_authorize cfg store query resolver now s e).1
              (store.put_transaction (made v e now) s).0
              (handle_authorize cfg store query resolver now s e).0
    unfolding handle_authorize
    handle_authorize-Answered query resolver now s e v time valid = (
      made-Carries v e now time,
      rw valid (put-Answered v (made v e now) _ s (store.put_transaction (made v e now) s) refl),
    )

  answer_unchanged :
      (x : AuthorizeVerdict) (now : ℤ) (s : S) (e : Entropy)
      → ((v : ValidatedAuthorize) → x ≢ proceed v)
      → ((answer cfg store x now s e).1 ≡ s) × ((answer cfg store x now s e).2 ≡ e)
  unfolding answer
  answer_unchanged (render_error status title description) now s e h = (refl, refl)
  answer_unchanged (redirect_error uri code description state) now s e h = (refl, refl)
  answer_unchanged (proceed v) now s e h = absurd (h v refl)

  -- A request that does not proceed leaves the store and the entropy source as they were.
  handle_authorize_unchanged :
      (query : String) (resolver : ClientResolver) (now : ℤ) (s : S) (e : Entropy)
      → ((v : ValidatedAuthorize) → validate_authorize_request query resolver ≢ proceed v)
      → ((handle_authorize cfg store query resolver now s e).1 ≡ s)
        × ((handle_authorize cfg store query resolver now s e).2 ≡ e)
  unfolding handle_authorize
  handle_authorize_unchanged query resolver now s e h =
      answer_unchanged (validate_authorize_request query resolver) now s e h
