-- ===== src/Examples/Flows.antt =====
-- The callback and the token endpoint.
use discord_oidc.Prelude.{String, ◌≡◌, ◌≢◌, ◌⊎◌, ◌↔◌, refl, true, none, some, [], ◌∷◌, ok, arith}
use discord_oidc.Prelude.Int.{pos}
use discord_oidc.Prelude.Text.{as_bytes, split, split_once}
use discord_oidc.Prelude.Dict
use discord_oidc.Crates.Compare.{ct_eq_text}
use discord_oidc.Json.{str, num, object}
use discord_oidc.Util.{random_token, sha256_b64url, b64url_encode}
use discord_oidc.Pkce.{is_valid_code_verifier, is_valid_code_challenge, verify_s256}
use discord_oidc.Transaction.{is_expired}
use discord_oidc.Code.{StoredAuthorizationCode, evaluate_code_exchange, hash_presented_code}
use discord_oidc.Client.{find}
use discord_oidc.Error.{error_body_to_value, invalid_grant}
use discord_oidc.Discord.{DiscordApi, DiscordUser}
use discord_oidc.Jwt.{IdTokenSigner, encode_claims, claims_to_value}
use discord_oidc.Params.{group, single}
use discord_oidc.Resolver.{ClientResolver, config_resolver}
use discord_oidc.Response.{JsonResponse, json_body, redirect}
use discord_oidc.Store.{active}
use discord_oidc.Store.SingleUse.{done}
use discord_oidc.Store.Memory.{
  InMemoryStore, take_transaction, put_authorization_code, consume_authorization_code, memory_store,
}
use discord_oidc.Store.Memory.Laws.{memory_view, memory-IsStore}
use discord_oidc.Authorize.{redirect_with_params, optional_pair}
use discord_oidc.Callback.{handle_callback, read_pairs}
use discord_oidc.Callback.Issue.{query_of, Grants, issued_for}
use discord_oidc.Callback.Codes.{
  IsIssued, handle_callback-IsIssued, handle_callback_spends, handle_callback_completes,
}
use discord_oidc.Token.{
  parse_form, read_request, authenticate_client, authenticate_public, resolved, claims_for,
  handle_token, exchange, after_consume, json_error,
}
use discord_oidc.Token.Clients.{IsAuthenticated, authenticate_client_iff}
use discord_oidc.Token.Denials.{IsNoStore, handle_token-IsNoStore}
use discord_oidc.Token.Exchange.{IsIssuance, handle_token-IsIssuance}
use discord_oidc.Token.Once.{handle_token_completes, handle_token_once}
use discord_oidc.Examples.Sample.{sample_crates}
use discord_oidc.Examples.Data.{
  config, counter, web_client, transaction, stored_code, exchange_check,
}

abbrev pub discord : DiscordApi
discord = record {
  exchange_code = λ code uri. ok (record { access_token = "token" });
  fetch_user = λ token. ok (record { id = "123456789012345678" });
  fetch_guild_member = λ token guild. ok (some (record { roles = [] }));
}

abbrev pub user : DiscordUser
user = record { id = "123456789012345678" }

abbrev pub callback_query : String
callback_query = "code=xyz&state=up"

abbrev pub waiting : InMemoryStore
waiting = record { transactions = ("up", transaction) ∷ []; codes = [] }

abbrev pub resolver : ClientResolver
resolver = config_resolver config

pub given :
    (query_of config memory_store resolver discord (pos 1010) callback_query).state ≡ some "up"
unfolding read_pairs sample_crates as_bytes split split_once
given = refl

pub took : (memory_store.take_transaction "up" (pos 1010) waiting).0 ≡ ok (active transaction)
unfolding memory_store take_transaction is_expired Dict.get
took = refl

pub granted :
    Grants config memory_store resolver discord
      (pos 1010)
      (query_of config memory_store resolver discord (pos 1010) callback_query)
      transaction
      user
unfolding read_pairs sample_crates as_bytes split split_once config_resolver find
granted = record {
  client = web_client;
  resolves = refl;
  registered = refl;
  no_error = refl;
  code = "xyz";
  given = refl;
  token = record { access_token = "token" };
  exchanged = refl;
  fetched = refl;
  subject = refl;
  member = record { roles = [] };
  joined = refl;
}

abbrev pub issued_record : StoredAuthorizationCode
issued_record =
    (issued_for config memory_store resolver discord (pos 1010) transaction user counter).stored

pub put_ok :
    (memory_store.put_authorization_code issued_record
      (memory_store.take_transaction "up" (pos 1010) waiting).1).0
    ≡ ok tt
unfolding memory_store put_authorization_code
put_ok = refl

-- The redirect and the record that the callback leaves.
completed :
    ((handle_callback config memory_store resolver discord
        (pos 1010)
        callback_query
        waiting
        counter).0
      ≡ redirect (
          redirect_with_params "https://rp.example/cb" (
            (
              "code",
              (issued_for config memory_store resolver discord
                  (pos 1010)
                  transaction
                  user
                  counter).plaintext,
            )
            ∷ optional_pair "state" (some "st"))))
    × (memory_view.code_at
          (handle_callback config memory_store resolver discord
            (pos 1010)
            callback_query
            waiting
            counter).1
          issued_record.code_hash
        ≡ some issued_record)
completed =
    handle_callback_completes config memory_store resolver discord (pos 1010) memory_view
      memory-IsStore callback_query "up" waiting counter transaction user given (omega arith) took
      granted put_ok

handle_callback-IsIssued_example :
    (memory_view.code_at waiting issued_record.code_hash ≡ some issued_record)
    ⊎ IsIssued config memory_store resolver discord
        (pos 1010)
        memory_view
        memory-IsStore
        callback_query
        waiting
        counter
        issued_record.code_hash
        issued_record
handle_callback-IsIssued_example =
    handle_callback-IsIssued config memory_store resolver discord (pos 1010) memory_view
      memory-IsStore callback_query waiting counter issued_record.code_hash issued_record
      completed.1

handle_callback_spends_example :
    memory_view.tx_at
      (handle_callback config memory_store resolver discord
        (pos 1010)
        callback_query
        waiting
        counter).1
      "up"
    ≡ none
handle_callback_spends_example =
    handle_callback_spends config memory_store resolver discord (pos 1010) memory_view
      memory-IsStore callback_query "up" waiting counter (active transaction) given (omega arith)
      took

abbrev code_hash_of_abc : String
code_hash_of_abc = "YWJjAAAAAAAAAAAAAAAAAAAAAAAAAAAAAAAAAAAAAAA"

abbrev code_record : StoredAuthorizationCode
code_record = record stored_code { code_hash = code_hash_of_abc }

abbrev holding : InMemoryStore
holding = record { transactions = []; codes = (code_hash_of_abc, code_record) ∷ [] }

holding-WellFormed : memory_view.WellFormed holding
unfolding memory_view
holding-WellFormed = (tt, (tt, tt))

abbrev pub signer : IdTokenSigner
signer = record {
  kid = "key";
  public_jwk = record { kty = "RSA"; use_ = none; alg = none; kid = none; n = "AQAB"; e = "AQAB" };
  sign = λ input. ok (1 ∷ 2 ∷ 3 ∷ []);
}

abbrev form : String
form =
    "grant_type=authorization_code&client_id=web&code=abc&redirect_uri=https://rp.example/cb&code_verifier=abcdefghijklmnopqrstuvwxyz0123456789-._~ABC"

code_given : single (parse_form form) "code" ≡ ok (some "abc")
unfolding parse_form group single Dict.get Dict.insert sample_crates as_bytes split split_once
code_given = refl

read : read_request form none resolver (pos 1010) ≡ ok (web_client, "abc", exchange_check)
unfolding read_request parse_form group single Dict.get Dict.insert Dict.values sample_crates
    as_bytes split split_once authenticate_public resolved config_resolver find
read = refl

used :
    (memory_store.consume_authorization_code
      (hash_presented_code "abc")
      exchange_check
      (pos 1010)
      holding).0
    ≡ ok (ok code_record)
unfolding memory_store hash_presented_code consume_authorization_code evaluate_code_exchange
    verify_s256 is_valid_code_verifier is_valid_code_challenge ct_eq_text sha256_b64url
    sample_crates as_bytes Dict.get
used = refl

-- The signed token of the run.
signed :
    encode_claims signer (
      claims_to_value
        (claims_for config web_client code_record (random_token counter).0 (pos 1010)))
    ≡ ok "aGVhZGVy.Y2xhaW1z.AQID"
unfolding encode_claims b64url_encode sample_crates as_bytes
signed = refl

abbrev response : JsonResponse
response = record {
  status = 200;
  body = object (
      ("access_token", str (random_token counter).0)
      ∷ ("token_type", str "Bearer")
      ∷ ("expires_in", num (pos 600))
      ∷ ("scope", str "openid")
      ∷ ("id_token", str "aGVhZGVy.Y2xhaW1z.AQID")
      ∷ []);
  no_store = true;
  extra_headers = [];
}

answered :
    (handle_token config memory_store resolver signer (pos 1010) form none holding counter).0
    ≡ json_body response
answered =
    handle_token_completes config memory_store resolver signer (pos 1010) form none holding counter
      web_client "abc" exchange_check code_record "aGVhZGVy.Y2xhaW1z.AQID" read used signed

abbrev after_exchange : InMemoryStore
after_exchange =
    (handle_token config memory_store resolver signer (pos 1010) form none holding counter).1

handle_token-IsIssuance_example :
    IsIssuance config memory_store resolver signer
      (pos 1010)
      memory_view
      memory-IsStore
      form
      none
      holding
      counter
      after_exchange
      response.body
handle_token-IsIssuance_example =
    handle_token-IsIssuance config memory_store resolver signer (pos 1010) memory_view
      memory-IsStore form none holding counter response answered refl

-- The answer to the same request again.
abbrev refusal : JsonResponse
refusal = record {
  status = 400;
  body = error_body_to_value (record {
    error = invalid_grant;
    error_description = some "authorization grant is invalid or expired";
  });
  no_store = true;
  extra_headers = [];
}

replayed :
    (handle_token config memory_store resolver signer (pos 1020) form none after_exchange counter).0
    ≡ json_body refusal
unfolding handle_token exchange after_consume json_error read_request parse_form group single
    Dict.get Dict.insert Dict.remove Dict.values sample_crates as_bytes split split_once
    authenticate_public resolved config_resolver find memory_store hash_presented_code
    consume_authorization_code evaluate_code_exchange verify_s256 is_valid_code_verifier
    is_valid_code_challenge ct_eq_text sha256_b64url
replayed = refl

handle_token_once_example : refusal.status ≢ 200
handle_token_once_example =
    handle_token_once config memory_store resolver signer memory_view memory-IsStore (pos 1010)
      (pos 1020) form form none none holding after_exchange counter counter "abc" response refusal
      holding-WellFormed code_given code_given answered refl done replayed

handle_token-IsNoStore_example :
    IsNoStore
      (handle_token config memory_store resolver signer (pos 1010) form none holding counter).0
handle_token-IsNoStore_example =
    handle_token-IsNoStore config memory_store resolver signer (pos 1010) form none holding counter

authenticate_client_iff_example :
    (authenticate_client (parse_form form) none resolver (pos 1010) ≡ ok web_client)
    ↔ IsAuthenticated (parse_form form) resolver (pos 1010) none web_client
authenticate_client_iff_example =
    authenticate_client_iff (parse_form form) resolver (pos 1010) none web_client
