-- ===== src/Examples/SignIn.antt =====
-- A sign-in from the callback to the tokens.
use discord_oidc.Prelude.{String, ◌≡◌, refl, true, none, some, [], ◌∷◌, ok, arith}
use discord_oidc.Prelude.Int.{pos, ◌+ℤ◌, add_i64}
use discord_oidc.Prelude.Text.{as_bytes, split, split_once, strip_prefix}
use discord_oidc.Prelude.Dict
use discord_oidc.Crates.Compare.{ct_eq_text}
use discord_oidc.Json.{str, num, object}
use discord_oidc.Util.{random_token, sha256_b64url, b64url_encode}
use discord_oidc.Pkce.{is_valid_code_verifier, is_valid_code_challenge, verify_s256}
use discord_oidc.Code.{issue_code, evaluate_code_exchange, hash_presented_code}
use discord_oidc.Client.{find}
use discord_oidc.Jwt.{encode_claims, at_hash_of}
use discord_oidc.Params.{group, single}
use discord_oidc.Resolver.{config_resolver}
use discord_oidc.Response.{json_body, redirect}
use discord_oidc.Store.Memory.{
  InMemoryStore, memory_store, take_transaction, put_authorization_code, consume_authorization_code,
}
use discord_oidc.Store.Memory.Laws.{memory_view, memory-IsStore}
use discord_oidc.Transaction.{is_expired}
use discord_oidc.Callback.{
  handle_callback, after_read, after_take, after_client, after_registered, after_exchange,
  after_user, after_member, after_put, read_pairs,
}
use discord_oidc.Token.{parse_form, read_request, authenticate_public, resolved, handle_token}
use discord_oidc.SignIn.{Presents, sign_in_completes}
use discord_oidc.Examples.Sample.{sample_crates}
use discord_oidc.Examples.Data.{config, counter, web_client, transaction, exchange_check}
use discord_oidc.Examples.Flows.{
  discord, user, callback_query, waiting, resolver, given, took, granted, issued_record, put_ok,
  signer,
}

-- A form that presents the first token of the counting entropy.
abbrev form : String
form =
    "grant_type=authorization_code&client_id=web&code=AAECAwQFBgcICQoLDA0ODxAREhMUFRYXGBkaGxwdHh8&redirect_uri=https://rp.example/cb&code_verifier=abcdefghijklmnopqrstuvwxyz0123456789-._~ABC"

read :
    read_request form none resolver (pos 1030)
    ≡ ok (web_client, (random_token counter).0, exchange_check)
unfolding read_request parse_form group single Dict.get Dict.insert Dict.values sample_crates
    as_bytes split split_once authenticate_public resolved config_resolver find random_token
read = refl

parsed :
    sample_crates.url_parse "https://rp.example/cb"
    ≡ some (record {
      scheme = "https";
      username = "";
      password = none;
      host_str = some "rp.example/cb";
      path = "/";
      query = none;
      fragment = none;
    })
unfolding sample_crates strip_prefix
parsed = refl

presented : Presents transaction exchange_check
unfolding is_valid_code_verifier sha256_b64url sample_crates as_bytes
presented = record { client = refl; uri = refl; verifier = refl; challenge = refl }

abbrev returned : InMemoryStore
returned =
    (handle_callback config memory_store resolver discord (pos 1010) callback_query waiting
      counter).1

used :
    (memory_store.consume_authorization_code
      (hash_presented_code (random_token counter).0)
      exchange_check
      (pos 1030)
      returned).0
    ≡ ok (ok issued_record)
unfolding memory_store hash_presented_code consume_authorization_code evaluate_code_exchange
    verify_s256 is_valid_code_verifier is_valid_code_challenge ct_eq_text sha256_b64url
    sample_crates as_bytes Dict.get Dict.insert Dict.remove handle_callback after_read after_take
    after_client after_registered after_exchange after_user after_member after_put issue_code
    read_pairs split split_once config_resolver find take_transaction put_authorization_code
    is_expired random_token add_i64
used = refl

signed :
    encode_claims signer (
      object (
        ("iss", str "https://op.example")
        ∷ ("sub", str "123456789012345678")
        ∷ ("aud", str "web")
        ∷ ("iat", num (pos 1030))
        ∷ ("exp", num (pos 1630))
        ∷ ("nonce", str "n")
        ∷ ("at_hash", str (at_hash_of (random_token counter).0))
        ∷ []))
    ≡ ok "aGVhZGVy.Y2xhaW1z.AQID"
unfolding encode_claims b64url_encode sample_crates as_bytes
signed = refl

sign_in_completes_example :
    ((handle_callback config memory_store resolver discord
        (pos 1010)
        callback_query
        waiting
        counter).0
      ≡ redirect (
          sample_crates.extend_pairs "https://rp.example/cb"
            (("code", (random_token counter).0) ∷ ("state", "st") ∷ [])))
    × ((handle_token config memory_store resolver signer (pos 1030) form none returned counter).0
        ≡ json_body (record {
          status = 200;
          body = object (
              ("access_token", str (random_token counter).0)
              ∷ ("token_type", str "Bearer")
              ∷ ("expires_in", num (pos 600))
              ∷ ("scope", str "openid")
              ∷ ("id_token", str "aGVhZGVy.Y2xhaW1z.AQID")
              ∷ []);
          no_store = true;
          extra_headers = [];
        }))
unfolding ◌+ℤ◌ add_i64
sign_in_completes_example =
    sign_in_completes config memory_store resolver discord signer memory_view memory-IsStore
      (pos 1010) (pos 1030) callback_query "up" form none waiting counter counter transaction user _
      web_client exchange_check (ok issued_record) "aGVhZGVy.Y2xhaW1z.AQID"
      (omega arith, omega arith) (omega arith) given (omega arith) took granted parsed put_ok read
      presented used signed
