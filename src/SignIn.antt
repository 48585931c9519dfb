-- ===== src/SignIn.antt =====
-- A whole sign-in: the callback (callback.rs) hands out a code, and `/token` (token.rs) exchanges it.
use discord_oidc.Prelude.{
  String, len, ◌≤◌, ◌≡◌, sym, ap, ◌∙◌, true, Option, some, [], ◌∷◌, ◌++◌, Result, ok, err, arith,
}
use discord_oidc.Prelude.Int.{ℤ, pos, ◌+ℤ◌, ◌<ℤ◌, IsTime, add_i64, add_i64_exact}
use discord_oidc.Prelude.Text.{as_bytes}
use discord_oidc.Crates.{Crates, Url}
use discord_oidc.Json.{str, num, object, optional}
use discord_oidc.Client.{ClientConfig}
use discord_oidc.Config.{Config}
use discord_oidc.Discord.{DiscordApi, DiscordUser}
use discord_oidc.Code
use discord_oidc.Code.{
  StoredAuthorizationCode, ExchangeCheck, ConsumeDeny, unknown, client_mismatch, redirect_mismatch,
  pkce_mismatch, hash_presented_code, issue_code,
}
use discord_oidc.Code.Exchange.{IsBound}
use discord_oidc.Pkce.{is_valid_code_verifier}
use discord_oidc.Resolver.{ClientResolver}
use discord_oidc.Response.{redirect, json_body}
use discord_oidc.Store.{AuthorizationStore, active}
use discord_oidc.Store.Contract.{View, IsStore, Replied}
use discord_oidc.Transaction.{AuthorizationTransaction}
use discord_oidc.Jwt.{IdTokenSigner, at_hash_of, claims_to_value, encode_claims}
use discord_oidc.Util.{Entropy, random_token, sha256_b64url}
use discord_oidc.Authorize.{optional_pair, redirect_with_params}
use discord_oidc.Callback.{handle_callback}
use discord_oidc.Callback.Issue.{query_of, Grants, issued_for}
use discord_oidc.Callback.Codes.{handle_callback_completes}
use discord_oidc.Token.{read_request, handle_token}
use discord_oidc.Token.Once.{handle_token_completes}

module _ ⦃c : Crates⦄ where
  -- A code that fits the check is handed over.
  Replied-IsBound :
      (x : StoredAuthorizationCode) (check : ExchangeCheck) (now : ℤ)
      (r : Result StoredAuthorizationCode ConsumeDeny)
      → Replied (some x) check now r
      → IsBound x check now
      → r ≡ ok x
  Replied-IsBound x check now (ok y) (same, bound) b = ap ok (sym same)
  Replied-IsBound x check now (err unknown) h b = absurd h
  Replied-IsBound x check now (err Code.expired) h b = absurd (let live = b.live in omega arith)
  Replied-IsBound x check now (err client_mismatch) (live, n) b = absurd (n b.client)
  Replied-IsBound x check now (err redirect_mismatch) (live, same, n) b = absurd (n b.redirect)
  Replied-IsBound x check now (err pkce_mismatch) (live, same, uri, n) b = absurd (n b.possession)

  -- The exchange presents the binding of a transaction, with the verifier of its challenge.
  pub record Presents (tx : AuthorizationTransaction) (check : ExchangeCheck) : Type 0 where
    pub client : check.client_id ≡ tx.oidc_client_id
    pub uri : check.redirect_uri ≡ tx.redirect_uri
    pub verifier : is_valid_code_verifier check.code_verifier ≡ true
    pub challenge : sha256_b64url (as_bytes check.code_verifier) ≡ tx.code_challenge

module _ ⦃c : Crates⦄ {S : Type 0} (cfg : Config) (store : AuthorizationStore S)
    (resolver : ClientResolver) (discord : DiscordApi) (signer : IdTokenSigner) (view : View S)
    (laws : IsStore store view) where
  issued-IsBound :
      (now later : ℤ) (tx : AuthorizationTransaction) (user : DiscordUser) (e : Entropy)
      (check : ExchangeCheck)
      → IsTime now
      → Presents tx check
      → later <ℤ (now +ℤ pos 60)
      → IsBound (issued_for cfg store resolver discord now tx user e).stored check later
  unfolding issue_code
  issued-IsBound now later tx user e check time p early = record {
    live = let exact = add_i64_exact now 60 time (omega arith) in rw exact early;
    client = sym p.client;
    redirect = sym p.uri;
    possession = (p.verifier, p.challenge);
  }

  -- A sign-in goes through. The query names a live transaction, and every condition on it is met;
  -- the browser then goes to the transaction's redirect URI with a fresh code and the client's
  -- state. Within a minute an accepted token request presents that code with the transaction's
  -- client and redirect URI and the verifier of its challenge. If the store answers both calls and
  -- the signer signs the claims with the user as the subject, the client as the audience and the
  -- transaction's nonce, the response has status 200, that ID Token and the transaction's scope.
  pub sign_in_completes :
      (now later : ℤ) (query state form_body : String) (auth_header : Option String) (s : S)
      (e later_e : Entropy) (tx : AuthorizationTransaction) (user : DiscordUser) (url : Url)
      (client : ClientConfig) (check : ExchangeCheck)
      (r : Result StoredAuthorizationCode ConsumeDeny) (id_token : String)
      → IsTime now
      → later <ℤ (now +ℤ pos 60)
      → (query_of cfg store resolver discord now query).state ≡ some state
      → len state ≤ 256
      → (store.take_transaction state now s).0 ≡ ok (active tx)
      → Grants cfg store resolver discord now
          (query_of cfg store resolver discord now query)
          tx
          user
      → c.url_parse tx.redirect_uri ≡ some url
      → (store.put_authorization_code
          (issued_for cfg store resolver discord now tx user e).stored
          (store.take_transaction state now s).1).0
        ≡ ok tt
      → read_request form_body auth_header resolver later ≡ ok (client, (random_token e).0, check)
      → Presents tx check
      → (store.consume_authorization_code
          (hash_presented_code (random_token e).0)
          check
          later
          (handle_callback cfg store resolver discord now query s e).1).0
        ≡ ok r
      → encode_claims signer (
          object (
            ("iss", str cfg.issuer)
            ∷ ("sub", str user.id)
            ∷ ("aud", str client.client_id)
            ∷ ("iat", num later)
            ∷ ("exp", num (add_i64 later cfg.id_token_ttl_secs))
            ∷ (optional "nonce" str tx.nonce
                ++ (("at_hash", str (at_hash_of (random_token later_e).0)) ∷ []))))
        ≡ ok id_token
      → let callback = handle_callback cfg store resolver discord now query s e in
        (callback.0
          ≡ redirect (
              c.extend_pairs tx.redirect_uri
                (("code", (random_token e).0) ∷ optional_pair "state" tx.rp_state)))
        × ((handle_token cfg store resolver signer later form_body auth_header callback.1 later_e).0
            ≡ json_body (record {
              status = 200;
              body = object (
                  ("access_token", str (random_token later_e).0)
                  ∷ ("token_type", str "Bearer")
                  ∷ ("expires_in", num cfg.id_token_ttl_secs)
                  ∷ ("scope", str tx.requested_scope)
                  ∷ ("id_token", str id_token)
                  ∷ []);
              no_store = true;
              extra_headers = [];
            }))
  unfolding redirect_with_params issue_code hash_presented_code claims_to_value
  sign_in_completes now later query state form_body auth_header s e later_e tx user url client check
        r id_token time early given short took g parsed put read p used signed =
      let x = (issued_for cfg store resolver discord now tx user e).stored in
      let t = (handle_callback cfg store resolver discord now query s e).1 in
      let (sent, there) =
        handle_callback_completes cfg store resolver discord now view laws query state s e tx user
          given short took g put in
      let replied =
        laws.consume_reply (hash_presented_code (random_token e).0) check later t r used in
      let good : r ≡ ok x =
        Replied-IsBound x check later r (rw there at replied)
          (issued-IsBound now later tx user e check time p early) in
      (
        rw (parsed, redirect_with_params) at sent,
        handle_token_completes cfg store resolver signer later form_body auth_header t later_e
            client (random_token e).0 check x id_token read (used ∙ ap ok good) signed,
      )
