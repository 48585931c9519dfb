-- ===== src/Response.antt =====
-- crates/oidc-core/src/response.rs: the responses of the core handlers.
use discord_oidc.Prelude.{ℕ, String, Bool, true, false, List, []}
use discord_oidc.Json.{Value}

pub record JsonResponse : Type 0 where
  pub status : ℕ
  pub body : Value
  pub no_store : Bool
  pub extra_headers : List (String × String)

pub data CoreResponse : Type 0 where
  redirect : String → CoreResponse
  json_body : JsonResponse → CoreResponse
  html : ℕ → String → CoreResponse

unfoldable pub json : ℕ → Value → CoreResponse
json status body =
    json_body (record { status = status; body = body; no_store = false; extra_headers = [] })

unfoldable pub json_no_store : ℕ → Value → CoreResponse
json_no_store status body =
    json_body (record { status = status; body = body; no_store = true; extra_headers = [] })
