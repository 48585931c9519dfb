-- ===== src/Error.antt =====
-- crates/oidc-core/src/error.rs: OAuth error codes and error pages.
use discord_oidc.Prelude.{String, Option, ◌∷◌}
use discord_oidc.Prelude.Text.{replace}
use discord_oidc.Json.{Value, str, object, optional}
use Prim.Native.String

pub data OAuthErrorCode : Type 0 where
  invalid_request invalid_client invalid_grant invalid_scope unauthorized_client : OAuthErrorCode
  unsupported_grant_type unsupported_response_type access_denied server_error : OAuthErrorCode
  temporarily_unavailable login_required account_selection_required : OAuthErrorCode

unfoldable pub as_str : OAuthErrorCode → String
as_str invalid_request = "invalid_request"
as_str invalid_client = "invalid_client"
as_str invalid_grant = "invalid_grant"
as_str invalid_scope = "invalid_scope"
as_str unauthorized_client = "unauthorized_client"
as_str unsupported_grant_type = "unsupported_grant_type"
as_str unsupported_response_type = "unsupported_response_type"
as_str access_denied = "access_denied"
as_str server_error = "server_error"
as_str temporarily_unavailable = "temporarily_unavailable"
as_str login_required = "login_required"
as_str account_selection_required = "account_selection_required"

pub record ErrorBody : Type 0 where
  pub error : OAuthErrorCode
  pub error_description : Option String

-- The derived serialisation: an absent description is left out.
unfoldable pub error_body_to_value : ErrorBody → Value
unfolding as_str
error_body_to_value b =
    object (("error", str (as_str b.error)) ∷ optional "error_description" str b.error_description)

unfoldable pub html_escape : String → String
html_escape input =
    replace b'"' "&quot;" (replace b'>' "&gt;" (replace b'<' "&lt;" (replace b'&' "&amp;" input)))

unfoldable pub error_page : String → String → String
unfolding html_escape
error_page title description =
    let t = html_escape title in
    let d = html_escape description in
    String.◌++◌
      "<!DOCTYPE html><html lang=\"en\"><head><meta charset=\"utf-8\"><title>discord-oidc: "
      (String.◌++◌ t (
        String.◌++◌ "</title></head><body><h1>"
          (String.◌++◌ t (String.◌++◌ "</h1><p>" (String.◌++◌ d "</p></body></html>")))))
