-- ===== src/Jwk.antt =====
-- crates/oidc-core/src/jwk.rs: public RSA keys and their validation.
pub mod Public
use discord_oidc.Prelude.{
  ℕ, ◌+◌, ◌-◌, ◌*◌, String, len, Bool, true, false, not, ◌&&◌, ◌||◌, Option, none, some, List, [],
  ◌∷◌, ◌++◌, map, Result, ok, err, ◌>>=◌, ◌>>◌, all, any, length, is_some, ltb, leb, eqb, ◌==◌,
  if◌then◌else◌,
}
use discord_oidc.Prelude.Text.{as_bytes, is_ascii_alphanumeric, is_empty_text}
use discord_oidc.Crates.{Crates}
use discord_oidc.Json.{Value, Members, no_members, member, obj, str, array, object, optional}

pub record Jwk : Type 0 where
  pub kty : String
  pub use_ : Option String
  pub alg : Option String
  pub kid : Option String
  pub n : String
  pub e : String

pub data JwkError : Type 0 where
  malformed : String → JwkError
  private_material : JwkError
  not_rsa_public : JwkError
  invalid_key_material : JwkError
  weak_key : JwkError
  unsupported_alg_or_use : JwkError
  invalid_kid : JwkError
  duplicate_key_id : String → JwkError

abbrev pub private_fields : List String
private_fields = "d" ∷ "p" ∷ "q" ∷ "dp" ∷ "dq" ∷ "qi" ∷ "oth" ∷ []

abbrev pub min_rsa_modulus_bits : ℕ
min_rsa_modulus_bits = 2048

unfoldable pub is_valid_kid : String → Bool
is_valid_kid kid =
    not (is_empty_text kid)
    && leb (len kid) 64
    && all (λ b. is_ascii_alphanumeric b || eqb b b'.' || eqb b b'_' || eqb b b'-') (as_bytes kid)

-- `u8::leading_zeros`
abbrev pub leading_zeros : ℕ → ℕ
leading_zeros b =
    if leb 128 b
    then 0
    else if leb 64 b
    then 1
    else if leb 32 b
    then 2
    else if leb 16 b
    then 3
    else if leb 8 b
    then 4
    else if leb 4 b
    then 5
    else if leb 2 b
    then 6
    else if leb 1 b
    then 7
    else 8

-- The bits of a big-endian number: leading zero bytes are skipped.
unfoldable pub bits_of : List ℕ → Option ℕ
bits_of [] = none
bits_of (b ∷ bs) =
    let later = bits_of bs in
    if eqb b 0 then later else some (8 * (length bs + 1) - leading_zeros b)

module _ ⦃c : Crates⦄ where
  unfoldable pub b64url_uint_bits : String → Option ℕ
  unfolding bits_of
  b64url_uint_bits s = elim (c.url_safe_decode s) [ none ↦ none | some bytes ↦ bits_of bytes ]

  unfoldable pub rsa_modulus_bits : String → Option ℕ
  rsa_modulus_bits n = b64url_uint_bits n

unfoldable pub new_rsa : String → String → String → Jwk
new_rsa n e kid = record {
  kty = "RSA";
  use_ = some "sig";
  alg = some "RS256";
  kid = some kid;
  n = n;
  e = e;
}

-- `Map::get` of a JSON object.
unfoldable pub get_member : String → Members → Option Value
get_member name no_members = none
get_member name (member k v rest) =
    let later = get_member name rest in if k == name then some v else later

-- `as_str`
abbrev pub text_of_value : Value → Option String
text_of_value (str s) = some s
text_of_value _ = none

abbrev pub text_member : Option Value → Option String
text_member none = none
text_member (some v) = text_of_value v

unfoldable pub get_str : Members → String → Option String
unfolding get_member
get_str ms name = text_member (get_member name ms)

-- `ok_or`
abbrev pub ok_or {ℓ} : {A : Type ℓ} → Option A → JwkError → Result A JwkError
ok_or none e = err e
ok_or (some a) e = ok a

-- Absent, or the one value that signing uses.
abbrev pub none_or : Option String → String → Bool
none_or none expected = true
none_or (some v) expected = v == expected

abbrev pub filter_kid : Option String → Option String
filter_kid none = none
filter_kid (some k) = if is_valid_kid k then some k else none

abbrev pub is_rsa : Option String → Bool
is_rsa none = false
is_rsa (some t) = t == "RSA"

abbrev pub require : Bool → JwkError → Result (Unit {0}) JwkError
require true e = ok tt
require false e = err e

module _ ⦃c : Crates⦄ where
  unfoldable pub validate_members : Members → Result Jwk JwkError
  validate_members ms = do
    require (not (any (λ f. is_some (get_member f ms)) private_fields)) private_material
    require (is_rsa (get_str ms "kty")) not_rsa_public
    n ← ok_or (get_str ms "n") not_rsa_public
    e ← ok_or (get_str ms "e") not_rsa_public
    n_bits ← ok_or (rsa_modulus_bits n) invalid_key_material
    require (not (ltb n_bits min_rsa_modulus_bits)) weak_key
    require (is_some (b64url_uint_bits e)) invalid_key_material
    require (none_or (get_str ms "alg") "RS256") unsupported_alg_or_use
    require (none_or (get_str ms "use") "sig") unsupported_alg_or_use
    kid ← ok_or (filter_kid (get_str ms "kid")) invalid_kid
    ok (record {
      kty = "RSA";
      use_ = get_str ms "use";
      alg = get_str ms "alg";
      kid = some kid;
      n = n;
      e = e;
    })

  unfoldable pub validate_public : Value → Result Jwk JwkError
  unfolding validate_members
  validate_public (obj ms) = validate_members ms
  validate_public _ = err (malformed "not a JSON object")

unfoldable pub jwk_to_value : Jwk → Value
jwk_to_value k = object (
    ("kty", str k.kty)
    ∷ (optional "use" str k.use_
        ++ optional "alg" str k.alg
        ++ optional "kid" str k.kid
        ++ ("n", str k.n) ∷ ("e", str k.e) ∷ []))

unfoldable pub jwks_document : List Jwk → Value
unfolding jwk_to_value
jwks_document keys = object (("keys", array (map jwk_to_value keys)) ∷ [])
