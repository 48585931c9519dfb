-- ===== src/Examples/Requests.antt =====
-- Requests to `/authorize`.
use discord_oidc.Prelude.{String, ◌≡◌, ◌≢◌, ◌↔◌, refl, false, some, [], arith}
use discord_oidc.Prelude.Int.{pos}
use discord_oidc.Prelude.Text.{as_bytes, split, split_once, split_whitespace, join}
use discord_oidc.Prelude.Dict
use discord_oidc.Client.{find}
use discord_oidc.Pkce.{is_valid_code_challenge}
use discord_oidc.Error.{invalid_request}
use discord_oidc.Resolver.{config_resolver}
use discord_oidc.Params.{parse_query, single}
use discord_oidc.Store.Memory.{InMemoryStore, memory_store}
use discord_oidc.Store.Memory.Laws.{memory_view, memory-IsStore}
use discord_oidc.Authorize.{
  ValidatedAuthorize, proceed, redirect_error, trusted_target, found_client, verdict, check_request,
  check_known, check_response_type, requested_scopes, check_method, read_challenge, check_lengths,
  check_prompt, check_max_age, grant, handle_authorize, validate_authorize_request,
}
use discord_oidc.Authorize.Verdict.{
  Proceeds, IsTrustedError, validate_proceed_iff, validate_redirect-IsTrustedError,
}
use discord_oidc.Authorize.Handle.{Carries, Answered, made, handle_authorize-Answered}
use discord_oidc.Examples.Sample.{sample_crates}
use discord_oidc.Examples.Data.{config, counter, challenge}

abbrev query : String
query =
    "response_type=code&client_id=web&redirect_uri=https://rp.example/cb&scope=openid&state=st&nonce=n&code_challenge_method=S256&code_challenge=YWJjZGVmZ2hpamtsbW5vcHFyc3R1dnd4eXowMTIzNDU"

-- A request without a challenge.
abbrev bad_query : String
bad_query =
    "response_type=code&client_id=web&redirect_uri=https://rp.example/cb&scope=openid&state=st&code_challenge_method=S256"

abbrev empty_store : InMemoryStore
empty_store = record { transactions = []; codes = [] }

abbrev validated : ValidatedAuthorize
validated = record {
  client_id = "web";
  redirect_uri = "https://rp.example/cb";
  scope = "openid";
  rp_state = some "st";
  nonce = some "n";
  code_challenge = challenge;
  discord_consent = false;
}

valid : validate_authorize_request query (config_resolver config) ≡ proceed validated
unfolding validate_authorize_request sample_crates as_bytes config_resolver parse_query
    trusted_target single Dict.get split Dict.insert split_once found_client find verdict
    check_request check_known check_response_type requested_scopes split_whitespace check_method
    read_challenge is_valid_code_challenge check_lengths check_prompt check_max_age grant join
valid = refl

invalid :
    validate_authorize_request bad_query (config_resolver config)
    ≡ redirect_error "https://rp.example/cb" invalid_request
        (some "invalid code_challenge")
        (some "st")
unfolding validate_authorize_request sample_crates as_bytes config_resolver parse_query
    trusted_target single Dict.get split Dict.insert split_once found_client find verdict
    check_request check_known check_response_type requested_scopes split_whitespace check_method
    read_challenge
invalid = refl

not_valid :
    (v : ValidatedAuthorize)
    → validate_authorize_request bad_query (config_resolver config) ≢ proceed v
not_valid v e = cc (invalid, e)

validate_proceed_iff_example :
    (validate_authorize_request query (config_resolver config) ≡ proceed validated)
    ↔ Proceeds query (config_resolver config) validated
validate_proceed_iff_example = validate_proceed_iff query (config_resolver config) validated

validate_redirect-IsTrustedError_example :
    IsTrustedError bad_query (config_resolver config) "https://rp.example/cb" (some "st")
validate_redirect-IsTrustedError_example =
    validate_redirect-IsTrustedError bad_query (config_resolver config) "https://rp.example/cb"
      invalid_request (some "invalid code_challenge") (some "st") invalid

handle_authorize-Answered_example :
    Carries (made config memory_store validated counter (pos 1000)) validated counter (pos 1000)
    × Answered config memory_store memory_view validated
        (made config memory_store validated counter (pos 1000))
        (handle_authorize config memory_store query
          (config_resolver config)
          (pos 1000)
          empty_store
          counter).1
        (memory_store.put_transaction
          (made config memory_store validated counter (pos 1000))
          empty_store).0
        (handle_authorize config memory_store query
          (config_resolver config)
          (pos 1000)
          empty_store
          counter).0
handle_authorize-Answered_example =
    handle_authorize-Answered config memory_store memory_view memory-IsStore query
      (config_resolver config) (pos 1000) empty_store counter validated (omega arith, omega arith)
      valid
