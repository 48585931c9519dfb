-- ===== src/Callback.antt =====
-- crates/oidc-core/src/callback.rs: the Discord callback. `handle_callback` is the chain of its
-- early returns; each stage is a definition that takes the answer of the call before it.
pub mod Issue
pub mod Codes
use discord_oidc.Prelude.{
  ℕ, String, len, Bool, true, false, not, ◌&&◌, ◌||◌, Option, none, some, List, [], ◌∷◌, ◌++◌,
  Result, ok, err, all, contains, ltb, ◌==◌, if◌then◌else◌,
}
use discord_oidc.Prelude.Text.{as_bytes, is_ascii_digit, is_empty_text}
use discord_oidc.Prelude.Int.{ℤ}
use discord_oidc.Crates.{Crates}
use discord_oidc.Error.{
  OAuthErrorCode, access_denied, server_error, temporarily_unavailable, invalid_request, as_str,
  error_page,
}
use discord_oidc.Client.{ClientConfig}
use discord_oidc.Config.{Config, discord_callback_url}
use discord_oidc.Discord.{
  DiscordApi, DiscordTokenResponse, DiscordUser, DiscordMember, DiscordError,
}
use discord_oidc.Registry.{RegistryStoreError}
use discord_oidc.Resolver.{ClientResolver}
use discord_oidc.Response.{CoreResponse, redirect, html}
use discord_oidc.Store.{AuthorizationStore, StoreError, TakeTransaction, missing, active, expired}
use discord_oidc.Transaction.{AuthorizationTransaction}
use discord_oidc.Code.{IssuedCode, issue_code}
use discord_oidc.Util.{Entropy}
use discord_oidc.Authorize.{redirect_with_params, optional_pair}

module _ ⦃c : Crates⦄ where
  unfoldable pub redirect_error : AuthorizationTransaction → OAuthErrorCode → String → CoreResponse
  redirect_error tx error_code description = redirect (
      redirect_with_params tx.redirect_uri (
        ("error", as_str error_code)
        ∷ ("error_description", description)
        ∷ optional_pair "state" tx.rp_state))

unfoldable pub render : ℕ → String → String → CoreResponse
render status title description = html status (error_page title description)

unfoldable pub sanitize_upstream_error : String → OAuthErrorCode
sanitize_upstream_error error_code =
    if error_code == "access_denied"
    then access_denied
    else if error_code == "server_error"
    then server_error
    else if error_code == "temporarily_unavailable"
    then temporarily_unavailable
    else if error_code == "invalid_request"
    then invalid_request
    else access_denied

-- The three variables that the loop over the query fills.
pub record CallbackQuery : Type 0 where
  pub state : Option String
  pub code : Option String
  pub error : Option String

abbrev pub no_values : CallbackQuery
no_values = record { state = none; code = none; error = none }

-- The first value is kept.
abbrev pub first : Option String → String → Option String
first none v = some v
first (some w) v = some w

unfoldable pub read_pairs : List (String × String) → CallbackQuery → CallbackQuery
read_pairs [] q = q
read_pairs ((k, v) ∷ pairs) q = read_pairs pairs (
    if k == "state"
    then record q { state = first q.state v }
    else if k == "code"
    then record q { code = first q.code v }
    else if k == "error"
    then record q { error = first q.error v }
    else q)

-- A subject that can be a Discord id.
abbrev pub is_subject : String → Bool
is_subject id = not (is_empty_text id) && all is_ascii_digit (as_bytes id)

module _ ⦃c : Crates⦄ {S : Type 0} (cfg : Config) (store : AuthorizationStore S)
    (resolver : ClientResolver) (discord : DiscordApi) (now : ℤ) where
  unfoldable pub after_put :
      AuthorizationTransaction
      → IssuedCode
      → Entropy
      → Result (Unit {0}) StoreError × S
      → CoreResponse × S × Entropy
  unfolding redirect_error
  after_put tx issued e (ok _, s) = (
    redirect (
        redirect_with_params tx.redirect_uri
          (("code", issued.plaintext) ∷ optional_pair "state" tx.rp_state)),
    s,
    e,
  )
  after_put tx issued e (err _, s) =
      (redirect_error tx server_error "authorization storage failure", s, e)

  unfoldable pub after_member :
      AuthorizationTransaction
      → DiscordUser
      → Result (Option DiscordMember) DiscordError
      → S
      → Entropy
      → CoreResponse × S × Entropy
  unfolding after_put redirect_error
  after_member tx user (ok (some _)) s e =
      let (issued, e') = issue_code tx user.id e now in
      after_put tx issued e' (store.put_authorization_code issued.stored s)
  after_member tx user (ok none) s e =
      (redirect_error tx access_denied "not a member of the required guild", s, e)
  after_member tx user (err _) s e =
      (redirect_error tx server_error "guild membership check failed", s, e)

  unfoldable pub after_user :
      AuthorizationTransaction
      → DiscordTokenResponse
      → Result DiscordUser DiscordError
      → S
      → Entropy
      → CoreResponse × S × Entropy
  unfolding after_member redirect_error
  after_user tx token (err _) s e =
      (redirect_error tx server_error "discord user lookup failed", s, e)
  after_user tx token (ok user) s e =
      if not (is_subject user.id)
      then (redirect_error tx server_error "invalid discord user response", s, e)
      else after_member tx user
          (discord.fetch_guild_member token.access_token cfg.required_guild_id) s e

  unfoldable pub after_exchange :
      AuthorizationTransaction
      → Result DiscordTokenResponse DiscordError
      → S
      → Entropy
      → CoreResponse × S × Entropy
  unfolding after_user redirect_error
  after_exchange tx (err _) s e =
      (redirect_error tx server_error "discord token exchange failed", s, e)
  after_exchange tx (ok token) s e = after_user tx token (discord.fetch_user token.access_token) s e

  -- The upstream error, or the upstream code.
  unfoldable pub after_registered :
      AuthorizationTransaction
      → Option String
      → Option String
      → S
      → Entropy
      → CoreResponse × S × Entropy
  unfolding after_exchange redirect_error
  after_registered tx (some upstream_error) code s e = (
    redirect_error tx (sanitize_upstream_error upstream_error) "discord authorization failed",
    s,
    e,
  )
  after_registered tx none none s e = (redirect_error tx invalid_request "missing code", s, e)
  after_registered tx none (some code) s e =
      after_exchange tx (discord.exchange_code code (discord_callback_url cfg)) s e

  unfoldable pub after_client :
      CallbackQuery
      → AuthorizationTransaction
      → Result (Option ClientConfig) RegistryStoreError
      → S
      → Entropy
      → CoreResponse × S × Entropy
  unfolding after_registered render
  after_client q tx (ok none) s e =
      (render 403 "unauthorized_client" "client is disabled or no longer registered", s, e)
  after_client q tx (err _) s e = (render 500 "server_error" "client registry failure", s, e)
  after_client q tx (ok (some client)) s e =
      if not (contains client.redirect_uris tx.redirect_uri)
      then (render 403 "unauthorized_client" "redirect_uri is no longer registered", s, e)
      else after_registered tx q.error q.code s e

  unfoldable pub after_take :
      CallbackQuery → Entropy → Result TakeTransaction StoreError × S → CoreResponse × S × Entropy
  unfolding after_client redirect_error render
  after_take q e (ok (active tx), s) =
      after_client q tx (resolver.find_client tx.oidc_client_id) s e
  after_take q e (ok (expired tx), s) =
      (redirect_error tx temporarily_unavailable "session expired", s, e)
  after_take q e (ok missing, s) =
      (render 400 "invalid_request" "authorization session not found or already used", s, e)
  after_take q e (err _, s) = (render 500 "server_error" "authorization storage failure", s, e)

  unfoldable pub after_read :
      CallbackQuery → Option String → S → Entropy → CoreResponse × S × Entropy
  unfolding after_take render
  after_read q none s e = (render 400 "invalid_request" "missing state", s, e)
  after_read q (some state) s e =
      if ltb 256 (len state)
      then (render 400 "invalid_request" "invalid state", s, e)
      else after_take q e (store.take_transaction state now s)

  unfoldable pub handle_callback : String → S → Entropy → CoreResponse × S × Entropy
  unfolding after_read read_pairs
  handle_callback query s e =
      let q = read_pairs (c.form_parse (as_bytes query)) no_values in after_read q q.state s e
