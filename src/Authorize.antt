-- ===== src/Authorize.antt =====
-- crates/oidc-core/src/authorize.rs: `/authorize`. `validate_authorize_request` is the chain of its
-- checks; the closure `err` over the validated redirect URI and state is applied at the end of the
-- checks that use it, which return its two arguments as a refusal.
pub mod Scopes
pub mod Request
pub mod Accept
pub mod Target
pub mod Verdict
pub mod Handle
use discord_oidc.Prelude.{
  ℕ, ◌+◌, String, len, Bool, true, false, not, ◌&&◌, ◌||◌, Option, none, some, List, [], ◌∷◌, ◌++◌,
  Result, ok, err, ◌>>=◌, ◌>>◌, any, contains, is_empty, is_some_and, length, ltb, leb, ◌==◌,
  if◌then◌else◌,
}
use discord_oidc.Prelude.Text.{split_whitespace, join, parse_u64}
use discord_oidc.Prelude.Int.{ℤ}
use discord_oidc.Prelude.Dict
use discord_oidc.Crates.{Crates}
use discord_oidc.Error.{
  OAuthErrorCode, invalid_request, invalid_scope, unsupported_response_type, login_required,
  account_selection_required, as_str, error_page,
}
use discord_oidc.Pkce.{required_challenge_method, is_valid_code_challenge}
use discord_oidc.Client.{ClientConfig}
use discord_oidc.Config.{Config}
use discord_oidc.Discord.{discord_authorize_url}
use discord_oidc.Registry.{RegistryStoreError}
use discord_oidc.Resolver.{ClientResolver}
use discord_oidc.Response.{CoreResponse, redirect, html}
use discord_oidc.Store.{AuthorizationStore, StoreError}
use discord_oidc.Transaction.{AuthorizationTransaction, new_transaction}
use discord_oidc.Util.{Entropy}
use discord_oidc.Params.{Params, parse_query, single, value_or_none}

abbrev pub max_query_len : ℕ
max_query_len = 8192

abbrev pub max_param_len : ℕ
max_param_len = 2048

abbrev pub max_state_len : ℕ
max_state_len = 1024

abbrev pub known_parameters : List String
known_parameters =
    "response_type" ∷ "client_id" ∷ "redirect_uri" ∷ "scope" ∷ "state" ∷ "nonce" ∷ "code_challenge"
    ∷ "code_challenge_method" ∷ "prompt" ∷ "max_age" ∷ []

pub record ValidatedAuthorize : Type 0 where
  pub client_id : String
  pub redirect_uri : String
  pub scope : String
  pub rp_state : Option String
  pub nonce : Option String
  pub code_challenge : String
  pub discord_consent : Bool

pub data AuthorizeVerdict : Type 0 where
  proceed : ValidatedAuthorize → AuthorizeVerdict
  redirect_error : String → OAuthErrorCode → Option String → Option String → AuthorizeVerdict
  render_error : ℕ → String → String → AuthorizeVerdict

-- `redirect_err`, over a refusal.
pub data Refusal : Type 0 where
  refuse : OAuthErrorCode → String → Refusal

unfoldable pub redirect_err : String → Refusal → Option String → AuthorizeVerdict
redirect_err uri (refuse code description) state = redirect_error uri code (some description) state

-- A single value of at most `max_param_len` bytes.
abbrev pub short_value {ℓ} : {E : Type ℓ} → Result (Option String) (Unit {0}) → E → Result String E
short_value (ok (some v)) e = if leb (len v) max_param_len then ok v else err e
short_value (ok none) e = err e
short_value (err _) e = err e

-- The client that is looked up, or the page to render.
unfoldable pub found_client :
    Result (Option ClientConfig) RegistryStoreError → Result ClientConfig AuthorizeVerdict
found_client (ok (some client)) = ok client
found_client (ok none) =
    err (render_error 400 "unauthorized_client" "unknown or disabled client_id")
found_client (err _) = err (render_error 500 "server_error" "client registry failure")

-- Steps 1 and 2: the client and its registered redirect URI.
unfoldable pub trusted_target :
    ClientResolver → Params → Result (ClientConfig × String) AuthorizeVerdict
trusted_target resolver params = do
  client_id ←
      short_value (single params "client_id")
        (render_error 400 "invalid_request" "missing or invalid client_id")
  client ← found_client (resolver.find_client client_id)
  redirect_uri ←
      short_value (single params "redirect_uri")
        (render_error 400 "invalid_request" "missing or invalid redirect_uri")
  if not (any (λ u. u == redirect_uri) client.redirect_uris)
      then err (render_error 400 "invalid_request" "redirect_uri is not registered")
      else ok (client, redirect_uri)

abbrev pub values_or_none : Option (List String) → List String
values_or_none none = []
values_or_none (some vs) = vs

-- The loop over the known parameters.
unfoldable pub check_known : Params → List String → Result (Unit {0}) Refusal
check_known params [] = ok tt
check_known params (name ∷ names) =
    let values = values_or_none (Dict.get name params) in
    if ltb 1 (length values)
    then err (refuse invalid_request "duplicated parameter")
    else if any (λ v. ltb max_param_len (len v)) values
    then err (refuse invalid_request "parameter too long")
    else check_known params names

unfoldable pub check_response_type : Result (Option String) (Unit {0}) → Result (Unit {0}) Refusal
check_response_type (ok (some t)) =
    if t == "code"
    then ok tt
    else err (refuse unsupported_response_type "unsupported response_type")
check_response_type (ok none) = err (refuse invalid_request "invalid response_type")
check_response_type (err _) = err (refuse invalid_request "invalid response_type")

-- The intersection of the requested and the allowed scopes, each once.
unfoldable pub grant : List String → List String → List String → List String
grant allowed [] granted = granted
grant allowed (s ∷ requested) granted =
    grant allowed requested
      (if any (λ a. a == s) allowed && not (contains granted s) then granted ++ s ∷ [] else granted)

-- The scopes that are requested, `openid` among them.
unfoldable pub requested_scopes : Params → Result (List String) Refusal
requested_scopes params = do
  scope ← short_value (single params "scope") (refuse invalid_scope "missing scope")
  if not (contains (split_whitespace scope) "openid")
      then err (refuse invalid_scope "openid scope required")
      else ok (split_whitespace scope)

unfoldable pub check_method : Result (Option String) (Unit {0}) → Result (Unit {0}) Refusal
check_method (ok (some m)) =
    if m == required_challenge_method
    then ok tt
    else err (refuse invalid_request "code_challenge_method must be S256")
check_method (ok none) = err (refuse invalid_request "code_challenge_method must be S256")
check_method (err _) = err (refuse invalid_request "code_challenge_method must be S256")

unfoldable pub read_challenge : Result (Option String) (Unit {0}) → Result String Refusal
read_challenge (ok (some ch)) =
    if is_valid_code_challenge ch
    then ok ch
    else err (refuse invalid_request "invalid code_challenge")
read_challenge (ok none) = err (refuse invalid_request "invalid code_challenge")
read_challenge (err _) = err (refuse invalid_request "invalid code_challenge")

-- `nonce` and `state` have a bounded length.
unfoldable pub check_lengths : Option String → Option String → Result (Unit {0}) Refusal
check_lengths nonce state =
    if is_some_and nonce (λ n. ltb max_state_len (len n))
    then err (refuse invalid_request "nonce too long")
    else if is_some_and state (λ s. ltb max_state_len (len s))
    then err (refuse invalid_request "state too long")
    else ok tt

-- The values of `prompt`; the result says whether `consent` was asked for.
unfoldable pub check_prompt : List String → Result Bool Refusal
check_prompt prompt =
    if is_empty prompt
    then ok false
    else if contains prompt "none" && ltb 1 (length prompt)
    then err (refuse invalid_request "prompt=none must not be combined with other values")
    else if contains prompt "none" || contains prompt "login"
    then err (refuse login_required "interactive authentication cannot be guaranteed")
    else if contains prompt "select_account"
    then err (refuse account_selection_required "account selection is not supported")
    else ok (contains prompt "consent")

abbrev pub prompt_values : Option String → List String
prompt_values none = []
prompt_values (some p) = split_whitespace p

-- Any `max_age` is refused.
unfoldable pub check_max_age : Option String → Result (Unit {0}) Refusal
check_max_age none = ok tt
check_max_age (some age) = elim (parse_u64 age) [
  | none ↦ err (refuse invalid_request "invalid max_age")
  | some n ↦ err (refuse login_required "max_age cannot be satisfied")
]

-- The checks after the redirect URI is trusted.
unfoldable pub check_request :
    Params → ClientConfig → String → Option String → Result ValidatedAuthorize Refusal
check_request params client uri state = do
  check_known params known_parameters
  check_response_type (single params "response_type")
  requested ← requested_scopes params
  check_method (single params "code_challenge_method")
  challenge ← read_challenge (single params "code_challenge")
  check_lengths (value_or_none (single params "nonce")) state
  consent ← check_prompt (prompt_values (value_or_none (single params "prompt")))
  check_max_age (value_or_none (single params "max_age"))
  ok (record {
    client_id = client.client_id;
    redirect_uri = uri;
    scope = join " " (grant client.allowed_scopes requested []);
    rp_state = state;
    nonce = value_or_none (single params "nonce");
    code_challenge = challenge;
    discord_consent = consent;
  })

-- The verdict on the checks after the target.
unfoldable pub verdict :
    String → Option String → Result ValidatedAuthorize Refusal → AuthorizeVerdict
unfolding redirect_err
verdict uri state (ok v) = proceed v
verdict uri state (err r) = redirect_err uri r state

unfoldable pub judge : Params → Result (ClientConfig × String) AuthorizeVerdict → AuthorizeVerdict
judge params (err page) = page
judge params (ok (client, uri)) =
    let state = value_or_none (single params "state") in
    verdict uri state (check_request params client uri state)

module _ ⦃c : Crates⦄ where
  unfoldable pub validate_authorize_request : String → ClientResolver → AuthorizeVerdict
  unfolding judge
  validate_authorize_request query resolver =
      if ltb max_query_len (len query)
      then render_error 400 "invalid_request" "request too large"
      else let params = parse_query query in judge params (trusted_target resolver params)

  unfoldable pub redirect_with_params : String → List (String × String) → String
  redirect_with_params uri pairs = elim (c.url_parse uri) [
    | none ↦ uri
    | some url ↦ c.extend_pairs uri pairs
  ]

-- The pair for an optional value.
abbrev pub optional_pair : String → Option String → List (String × String)
optional_pair name none = []
optional_pair name (some v) = (name, v) ∷ []

module _ ⦃c : Crates⦄ {S : Type 0} (cfg : Config) (store : AuthorizationStore S) where
  -- What follows on a transaction's being stored.
  unfoldable pub after_put :
      AuthorizationTransaction
      → Bool
      → Entropy
      → Result (Unit {0}) StoreError × S
      → CoreResponse × S × Entropy
  after_put tx consent e (ok _, s) =
      (redirect (discord_authorize_url cfg tx.discord_oauth_state consent), s, e)
  after_put tx consent e (err _, s) =
      (html 500 (error_page "server_error" "authorization storage failure"), s, e)

  unfoldable pub answer : AuthorizeVerdict → ℤ → S → Entropy → CoreResponse × S × Entropy
  unfolding after_put
  answer (render_error status title description) now s e =
      (html status (error_page title description), s, e)
  answer (redirect_error uri code description state) now s e = (
    redirect (
        redirect_with_params uri (
          ("error", as_str code)
          ∷ (optional_pair "error_description" description ++ optional_pair "state" state))),
    s,
    e,
  )
  answer (proceed v) now s e =
      let (tx, e') =
        new_transaction v.client_id v.redirect_uri v.scope v.rp_state v.nonce v.code_challenge e
          now in
      after_put tx v.discord_consent e' (store.put_transaction tx s)

  unfoldable pub handle_authorize :
      String → ClientResolver → ℤ → S → Entropy → CoreResponse × S × Entropy
  unfolding answer
  handle_authorize query resolver now s e =
      answer (validate_authorize_request query resolver) now s e
