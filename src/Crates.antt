-- ===== src/Crates.antt =====
-- What the program takes from third-party crates, as a parameter of the model: sha2, base64,
-- subtle, url (with its form_urlencoded), percent-encoding and serde_json. The fields with a
-- statement for a type are documented behaviour of those crates.
pub mod Compare
use discord_oidc.Prelude.{
  ℕ, ◌+◌, ◌*◌, ◌/◌, String, len, ◌≡◌, ◌↔◌, Bool, true, ◌||◌, Option, List, length, all, eqb,
}
use discord_oidc.Prelude.Text.{as_bytes, is_ascii_alphanumeric}
use discord_oidc.Json.{Value}

-- What the program reads of a parsed URL.
pub record Url : Type 0 where
  pub scheme : String
  pub username : String
  pub password : Option String
  pub host_str : Option String
  pub path : String
  pub query : Option String
  pub fragment : Option String

-- The alphabet of base64url, over bytes.
abbrev pub is_b64url_byte : ℕ → Bool
is_b64url_byte b = is_ascii_alphanumeric b || eqb b b'-' || eqb b b'_'

pub record Crates : Type 0 where
  -- `sha2::Sha256::digest`
  pub sha256 : List ℕ → List ℕ
  pub length-sha256 : (bs : List ℕ) → length (sha256 bs) ≡ 32
  -- `base64`'s `URL_SAFE_NO_PAD` and `STANDARD`
  pub url_safe_encode : List ℕ → String
  pub len-url_safe_encode : (bs : List ℕ) → len (url_safe_encode bs) ≡ (4 * length bs + 2) / 3
  pub url_safe_alphabet : (bs : List ℕ) → all is_b64url_byte (as_bytes (url_safe_encode bs)) ≡ true
  pub url_safe_decode : String → Option (List ℕ)
  pub standard_decode : String → Option (List ℕ)
  -- `subtle::ConstantTimeEq::ct_eq` on slices of bytes
  pub ct_eq : List ℕ → List ℕ → Bool
  pub ct_eq_iff : (xs ys : List ℕ) → (ct_eq xs ys ≡ true) ↔ (xs ≡ ys)
  -- `Url::parse`, and the text of the parsed URL with pairs added to its query
  pub url_parse : String → Option Url
  pub extend_pairs : String → List (String × String) → String
  -- `form_urlencoded::parse`
  pub form_parse : List ℕ → List (String × String)
  -- `percent_decode(…).decode_utf8().ok()`
  pub percent_decode_utf8 : List ℕ → Option String
  -- `serde_json::to_string`, and `serde_json::from_str` into a value
  pub to_json : Value → Option String
  -- `Value::to_string`
  pub value_to_string : Value → String
  pub from_json : String → Option Value
