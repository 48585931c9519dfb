-- ===== src/Authorize/Verdict.antt =====
-- Where `/authorize` may send a browser, and which requests proceed.
use discord_oidc.Prelude.{
  String, len, ◌≤◌, ◌≡◌, ◌↔◌, refl, inl, inr, false, Option, Result, ok, err, ltb, arith,
  Bool-cases,
}
use discord_oidc.Crates.{Crates}
use discord_oidc.Client.{ClientConfig}
use discord_oidc.Error.{OAuthErrorCode}
use discord_oidc.Resolver.{ClientResolver}
use discord_oidc.Params.{Params, parse_query, single, value_or_none}
use discord_oidc.Authorize.{
  AuthorizeVerdict, proceed, redirect_error, render_error, ValidatedAuthorize, Refusal, refuse,
  found_client, trusted_target, check_request, verdict, judge, redirect_err,
  validate_authorize_request, max_query_len,
}
use discord_oidc.Authorize.Accept.{IsAcceptable, check_request_iff}
use discord_oidc.Authorize.Target.{IsTarget, trusted_target_sound, trusted_target_complete}

-- A page is rendered in place.
abbrev IsPage : AuthorizeVerdict → Type 0
IsPage (render_error status title description) = Unit
IsPage (proceed v) = ⊥
IsPage (redirect_error uri code description state) = ⊥

page_ne_proceed : (x : AuthorizeVerdict) (v : ValidatedAuthorize) → IsPage x → x ≡ proceed v → ⊥
page_ne_proceed (render_error status title description) v p e = cc
page_ne_proceed (proceed w) v p e = elim p [ ]
page_ne_proceed (redirect_error uri code d state) v p e = elim p [ ]

page_ne_redirect :
    (x : AuthorizeVerdict) (uri : String) (code : OAuthErrorCode)
    (description state : Option String)
    → IsPage x
    → x ≡ redirect_error uri code description state
    → ⊥
page_ne_redirect (render_error status title d) uri code description state p e = cc
page_ne_redirect (proceed w) uri code description state p e = elim p [ ]
page_ne_redirect (redirect_error u k d s) uri code description state p e = elim p [ ]

trusted_target-IsPage :
    (resolver : ClientResolver) (params : Params) (x : AuthorizeVerdict)
    → trusted_target resolver params ≡ err x
    → IsPage x
unfolding trusted_target found_client
trusted_target-IsPage resolver params (render_error status title description) e = tt
trusted_target-IsPage resolver params (proceed v) e = ground arith
trusted_target-IsPage resolver params (redirect_error uri code description state) e = ground arith

module _ ⦃c : Crates⦄ (query : String) (resolver : ClientResolver) where
  abbrev pub state_of : Option String
  state_of = value_or_none (single (parse_query query) "state")

  -- The request proceeds with `v`.
  pub record Proceeds (v : ValidatedAuthorize) : Type 0 where
    pub client : ClientConfig
    pub uri : String
    pub size : len query ≤ 8192
    pub target : IsTarget resolver (parse_query query) client uri
    pub acceptable : IsAcceptable (parse_query query) client uri state_of v

  passed :
      (uri : String) (r : Result ValidatedAuthorize Refusal) (v : ValidatedAuthorize)
      → verdict uri state_of r ≡ proceed v
      → r ≡ ok v
  unfolding verdict redirect_err
  passed uri (ok w) v h = ground arith
  passed uri (err (refuse code d)) v h = cc

  judge-eq-proceed :
      (r : Result (ClientConfig × String) AuthorizeVerdict) (v : ValidatedAuthorize)
      → trusted_target resolver (parse_query query) ≡ r
      → judge (parse_query query) r ≡ proceed v
      → len query ≤ 8192
      → Proceeds v
  unfolding judge
  judge-eq-proceed (err x) v t e size =
      absurd (page_ne_proceed x v (trusted_target-IsPage resolver (parse_query query) x t) e)
  judge-eq-proceed (ok (client, uri)) v t e size = record {
    client = client;
    uri = uri;
    size = size;
    target = trusted_target_sound resolver (parse_query query) client uri t;
    acceptable =
        (check_request_iff (parse_query query) client uri state_of v).0
          (passed uri (check_request (parse_query query) client uri state_of) v e);
  }

  proceed_sound :
      (v : ValidatedAuthorize) → validate_authorize_request query resolver ≡ proceed v → Proceeds v
  unfolding validate_authorize_request
  proceed_sound v e = elim (Bool-cases (ltb max_query_len (len query))) [
    | inl large ↦ absurd (cc (rw large at e))
    | inr fits ↦
        judge-eq-proceed (trusted_target resolver (parse_query query)) v refl (rw fits at e)
          (ground arith)
  ]

  proceed_complete :
      (v : ValidatedAuthorize) → Proceeds v → validate_authorize_request query resolver ≡ proceed v
  unfolding validate_authorize_request verdict
  proceed_complete v p =
      let fits : ltb max_query_len (len query) ≡ false = let s = p.size in ground arith in
      rw
        (
          fits,
          trusted_target_complete resolver (parse_query query) p.client p.uri p.target,
          judge,
          (check_request_iff (parse_query query) p.client p.uri state_of v).1 p.acceptable,
        )
        refl

  -- A request proceeds exactly when it is not too large, names a client that resolves and one of
  -- its registered redirect URIs, and is acceptable for them.
  pub validate_proceed_iff :
      (v : ValidatedAuthorize)
      → (validate_authorize_request query resolver ≡ proceed v) ↔ Proceeds v
  validate_proceed_iff v = (proceed_sound v, proceed_complete v)

  -- What an error that is sent to the client rests on.
  pub record IsTrustedError (uri : String) (state : Option String) : Type 0 where
    pub client : ClientConfig
    pub size : len query ≤ 8192
    pub target : IsTarget resolver (parse_query query) client uri
    pub echoed : state ≡ state_of

  refused :
      (uri uri' : String) (r : Result ValidatedAuthorize Refusal) (code : OAuthErrorCode)
      (description state : Option String)
      → verdict uri state_of r ≡ redirect_error uri' code description state
      → (uri ≡ uri') × (state ≡ state_of)
  unfolding verdict redirect_err
  refused uri uri' (ok w) code description state h = cc
  refused uri uri' (err (refuse c' d)) code description state h = ground arith

  judge-eq-redirect :
      (r : Result (ClientConfig × String) AuthorizeVerdict) (uri : String) (code : OAuthErrorCode)
      (description state : Option String)
      → trusted_target resolver (parse_query query) ≡ r
      → judge (parse_query query) r ≡ redirect_error uri code description state
      → len query ≤ 8192
      → IsTrustedError uri state
  unfolding judge
  judge-eq-redirect (err x) uri code description state t e size = absurd (
      page_ne_redirect x uri code description state
        (trusted_target-IsPage resolver (parse_query query) x t) e)
  judge-eq-redirect (ok (client, uri')) uri code description state t e size =
      let (same, echoed) =
        refused uri' uri (check_request (parse_query query) client uri' state_of) code description
          state e in
      record {
        client = client;
        size = size;
        target = rw same at (trusted_target_sound resolver (parse_query query) client uri' t);
        echoed = echoed;
      }

  -- An error is redirected only to a redirect URI that is registered for a client which resolves
  -- and which the request names; the state that goes with it is the request's own.
  pub validate_redirect-IsTrustedError :
      (uri : String) (code : OAuthErrorCode) (description state : Option String)
      → validate_authorize_request query resolver ≡ redirect_error uri code description state
      → IsTrustedError uri state
  unfolding validate_authorize_request
  validate_redirect-IsTrustedError uri code description state e =
      elim (Bool-cases (ltb max_query_len (len query))) [
        | inl large ↦ absurd (cc (rw large at e))
        | inr fits ↦
            judge-eq-redirect (trusted_target resolver (parse_query query)) uri code description
              state refl (rw fits at e) (ground arith)
      ]
