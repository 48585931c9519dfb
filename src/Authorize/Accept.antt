-- ===== src/Authorize/Accept.antt =====
-- The requests to `/authorize` (authorize.rs) that are acceptable for a client and redirect URI.
use discord_oidc.Prelude.{
  String, ◌≡◌, ◌↔◌, ◌∙◌, true, Option, none, some, List, [], ok, >>=-eq-ok, contains, arith,
}
use discord_oidc.Prelude.Text.{join}
use discord_oidc.Pkce.{is_valid_code_challenge}
use discord_oidc.Client.{ClientConfig}
use discord_oidc.Params.{Params, single, value_or_none}
use discord_oidc.Authorize.{
  ValidatedAuthorize, known_parameters, check_known, check_response_type, requested_scopes,
  check_method, read_challenge, check_lengths, check_prompt, prompt_values, check_max_age,
  check_request, grant,
}
use discord_oidc.Authorize.Request.{
  ShortParams, IsBrief, IsPromptable, Requests, check_known_iff, check_response_type_iff,
  check_method_iff, read_challenge_iff, check_lengths_iff, check_prompt_iff, check_max_age_iff,
  requested_scopes_iff,
}

module _ (params : Params) (client : ClientConfig) (uri : String) (state : Option String) where
  abbrev pub optional_value : String → Option String
  optional_value name = value_or_none (single params name)

  -- Everything that a request must satisfy, and what is taken from it.
  pub record IsAcceptable (v : ValidatedAuthorize) : Type 0 where
    pub short : ShortParams params known_parameters
    pub response_type : single params "response_type" ≡ ok (some "code")
    pub requested : List String
    pub requests : Requests params requested
    pub method : single params "code_challenge_method" ≡ ok (some "S256")
    pub challenge : single params "code_challenge" ≡ ok (some v.code_challenge)
    pub challenge_form : is_valid_code_challenge v.code_challenge ≡ true
    pub brief_nonce : IsBrief (optional_value "nonce")
    pub brief_state : IsBrief state
    pub promptable : IsPromptable (prompt_values (optional_value "prompt"))
    pub consent : contains (prompt_values (optional_value "prompt")) "consent" ≡ v.discord_consent
    pub no_max_age : optional_value "max_age" ≡ none
    pub client_id : v.client_id ≡ client.client_id
    pub redirect_uri : v.redirect_uri ≡ uri
    pub scope : v.scope ≡ join " " (grant client.allowed_scopes requested [])
    pub rp_state : v.rp_state ≡ state
    pub nonce : v.nonce ≡ optional_value "nonce"

  check_request_sound :
      (v : ValidatedAuthorize) → check_request params client uri state ≡ ok v → IsAcceptable v
  unfolding check_request
  check_request_sound v e =
      let (u₁, known, e₁) = >>=-eq-ok (check_known params known_parameters) _ e in
      let (u₂, type_ok, e₂) =
        >>=-eq-ok (check_response_type (single params "response_type")) _ e₁ in
      let (asked, scopes, e₃) = >>=-eq-ok (requested_scopes params) _ e₂ in
      let (u₃, method_ok, e₄) =
        >>=-eq-ok (check_method (single params "code_challenge_method")) _ e₃ in
      let (ch, read, e₅) = >>=-eq-ok (read_challenge (single params "code_challenge")) _ e₄ in
      let (u₄, brief, e₆) = >>=-eq-ok (check_lengths (optional_value "nonce") state) _ e₅ in
      let (wants, prompts, e₇) =
        >>=-eq-ok (check_prompt (prompt_values (optional_value "prompt"))) _ e₆ in
      let (u₅, ageless, e₈) = >>=-eq-ok (check_max_age (optional_value "max_age")) _ e₇ in
      let (given, form) = (read_challenge_iff _ ch).0 read in
      let same : ch ≡ v.code_challenge = ground arith in
      record {
        short = (check_known_iff params known_parameters).0 known;
        response_type = (check_response_type_iff _).0 type_ok;
        requested = asked;
        requests = (requested_scopes_iff params asked).0 scopes;
        method = (check_method_iff _).0 method_ok;
        challenge = rw (← same) given;
        challenge_form = rw (← same) form;
        brief_nonce = ((check_lengths_iff _ _).0 brief).0;
        brief_state = ((check_lengths_iff (optional_value "nonce") state).0 brief).1;
        promptable = ((check_prompt_iff _ wants).0 prompts).0;
        consent = ((check_prompt_iff _ wants).0 prompts).1 ∙ ground arith;
        no_max_age = (check_max_age_iff _).0 ageless;
        client_id = ground arith;
        redirect_uri = ground arith;
        scope = ground arith;
        rp_state = ground arith;
        nonce = ground arith;
      }

  check_request_complete :
      (v : ValidatedAuthorize) → IsAcceptable v → check_request params client uri state ≡ ok v
  unfolding check_request
  check_request_complete v a =
      rw
        (
          (check_known_iff params known_parameters).1 a.short,
          (check_response_type_iff _).1 a.response_type,
          (requested_scopes_iff params a.requested).1 a.requests,
          (check_method_iff _).1 a.method,
          (read_challenge_iff _ v.code_challenge).1 (a.challenge, a.challenge_form),
          (check_lengths_iff (optional_value "nonce") state).1 (a.brief_nonce, a.brief_state),
          (check_prompt_iff _ v.discord_consent).1 (a.promptable, a.consent),
          (check_max_age_iff _).1 a.no_max_age,
        )
        (ground arith)

  -- The checks pass with a result exactly when the request is acceptable with that result: one
  -- short value for each known parameter, `response_type=code`, `openid` among the scopes, PKCE
  -- with `S256` and a well-formed challenge, no `max_age` and no prompt that cannot be satisfied.
  pub check_request_iff :
      (v : ValidatedAuthorize) → (check_request params client uri state ≡ ok v) ↔ IsAcceptable v
  check_request_iff v = (check_request_sound v, check_request_complete v)
